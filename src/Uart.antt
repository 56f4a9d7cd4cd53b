-- ===== src/Uart.antt =====
-- bin/uart_sram_load.py: a binary image goes over the UART into the SRAM, in packets that the loader in
-- the RTL acknowledges.
pub mod Receiver
pub mod Delivery
pub mod Success
use corejack.Prelude.{
  ℕ, zero, suc, ◌+◌, ◌/◌, ◌%◌, ◌^◌, Bool, true, false, not, ◌||◌, List, [], ◌∷◌, ◌++◌, Option, none,
  some, ◌==◌, ltb, if◌then◌else◌, is_nil, length, take, drop, any,
}
use corejack.Text.{Text, codes, has_infix}

-- The exceptions and exits of a run.
pub data Stop : Type 0 where
  write_timed_out read_timed_out returned_nak payload_too_long overflow : Stop
  unexpected_reply unsupported_baud : ℕ → Stop
  image_not_found chunk_size_out_of_range : Stop
  text_not_found : Text → Stop

-- What the operating system and the device do: for each `select` before a write, nothing if it is not
-- ready in time, and otherwise one less than the bytes that `os.write` takes at most; for each
-- `read_byte`, the byte that came before the deadline; and the text that was captured in the end.
pub record Line : Type 0 where
  pub room : ℕ → Option ℕ
  pub reply : ℕ → Option ℕ
  pub captured : Text

pub data Notice : Type 0 where
  loaded : ℕ → ℕ → Notice
  released : Notice
  uart_text : Text → Notice

-- The open port: the bytes written, the writes and the reads so far, the lines printed.
pub record Port : Type 0 where
  pub sent : Text
  pub writes : ℕ
  pub reads : ℕ
  pub printed : List Notice
  pub closed : Bool

pub data Outcome : Type 0 where
  going : Port → Outcome
  stopped : Stop → Port → Outcome

infixl 5 ◌>>=◌
abbrev pub ◌>>=◌ : Outcome → (Port → Outcome) → Outcome
going p >>= f = f p
stopped e p >>= f = stopped e p

abbrev pub send : ℕ → Port → Port
send c p = record p { sent = p.sent ++ c ∷ [] }

-- The bytes of `view` that the current `os.write` still takes go out; then the loop selects again.
unfoldable pub write_bytes : Line → ℕ → Text → Port → Outcome
write_bytes line left [] p = going p
write_bytes line (suc left) (c ∷ view) p = write_bytes line left view (send c p)
write_bytes line zero (c ∷ view) p = elim (line.room p.writes) [
  | none ↦ stopped write_timed_out p
  | some more ↦ write_bytes line more view (send c (record p { writes = suc p.writes }))
]

unfoldable pub write_all : Line → Text → Port → Outcome
write_all line view p = write_bytes line 0 view p

abbrev pub ack : ℕ
ack = 6

abbrev pub nak : ℕ
nak = 21

answered : ℕ → Port → Outcome
answered value p =
    if value == ack
    then going p
    else if value == nak
    then stopped returned_nak p
    else stopped (unexpected_reply value) p

unfoldable pub expect_ack : Line → Port → Outcome
unfolding answered
expect_ack line p = elim (line.reply p.reads) [
  | none ↦ stopped read_timed_out p
  | some value ↦ answered value (record p { reads = suc p.reads })
]

-- `n.to_bytes(count, byteorder="little", signed=False)`
unfoldable pub le_bytes : ℕ → ℕ → Text
le_bytes zero n = []
le_bytes (suc count) n = n % 256 ∷ le_bytes count (n / 256)

unfoldable pub to_bytes : ℕ → ℕ → Option Text
to_bytes count n = if ltb n (256 ^ count) then some (le_bytes count n) else none

send_packet : Line → Text → Option Text → Option Text → Port → Outcome
send_packet line payload (some addr) (some size) p = do
  q ← write_all line (b'W' ∷ (addr ++ (size ++ payload))) p
  expect_ack line q
send_packet line payload _ _ p = stopped overflow p

unfoldable pub write_chunk : Line → ℕ → Text → Port → Outcome
unfolding send_packet
write_chunk line addr payload p =
    if is_nil payload
    then going p
    else if ltb 65535 (length payload)
    then stopped payload_too_long p
    else send_packet line payload (to_bytes 4 addr) (to_bytes 2 (length payload)) p

-- `for offset in range(0, len(image), chunk_size)`: `rounds` is at least what is left of the image.
unfoldable pub write_chunks : Line → ℕ → ℕ → Text → ℕ → ℕ → Port → Outcome
write_chunks line addr size image zero offset p = going p
write_chunks line addr size image (suc rounds) offset p =
    if ltb offset (length image)
    then (write_chunk line (addr + offset) (take size (drop offset image)) p >>= λ q.
        write_chunks line addr size image rounds (offset + size) q)
    else going p

pub record Arguments : Type 0 where
  pub baud : ℕ
  pub addr : ℕ
  pub chunk_size : ℕ
  pub no_go : Bool
  pub capture : Bool
  pub expect : List Text

abbrev pub note : Notice → Port → Port
note n p = record p { printed = p.printed ++ n ∷ [] }

unfoldable pub release : Line → Bool → Port → Outcome
release line no_go p =
    if no_go
    then going p
    else (write_all line (codes "G") p >>= λ q. expect_ack line q >>= λ r. going (note released r))

unfoldable pub expect_texts : Text → List Text → Port → Outcome
expect_texts text [] p = going p
expect_texts text (x ∷ xs) p =
    if has_infix x text then expect_texts text xs p else stopped (text_not_found x) p

unfoldable pub capture_text : Line → Arguments → Port → Outcome
capture_text line args p =
    if args.capture
    then expect_texts line.captured args.expect
        (if is_nil line.captured then p else note (uart_text line.captured) p)
    else going p

unfoldable pub session : Line → Arguments → Text → Port → Outcome
session line args image start = do
  asked ← write_all line (codes "?") start
  answered ← expect_ack line asked
  written ← write_chunks line args.addr args.chunk_size image (length image) 0 answered
  freed ← release line args.no_go (note (loaded (length image) args.addr) written)
  capture_text line args freed

-- `finally: port.close()`
abbrev pub close : Outcome → Outcome
close (going p) = going (record p { closed = true })
close (stopped e p) = stopped e (record p { closed = true })

abbrev pub baud_rates : List ℕ
baud_rates = 9600 ∷ 19200 ∷ 38400 ∷ 57600 ∷ 115200 ∷ 230400 ∷ 460800 ∷ 921600 ∷ []

abbrev pub fresh : Port
fresh = record { sent = []; writes = 0; reads = 0; printed = []; closed = false }

unfoldable pub load : Line → Arguments → Option Text → Outcome
load line args none = stopped image_not_found fresh
load line args (some image) =
    if args.chunk_size == 0 || ltb 65535 args.chunk_size
    then stopped chunk_size_out_of_range fresh
    else if not (any (λ rate. rate == args.baud) baud_rates)
    then stopped (unsupported_baud args.baud) fresh
    else close (session line args image fresh)
