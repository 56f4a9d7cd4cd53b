-- ===== src/Uart/Receiver.antt =====
-- The loader at the other end of the UART, rtl/platform/soc_uart_sram_loader.sv, as a machine that takes
-- the bytes of the host: `?` is a ping, `W` with a 32-bit address, a 16-bit size and as many bytes is a
-- write, and `G` releases the core, after which nothing is received. The address register has 32 bits.
-- The states StateMemReq, StateMemRsp and StateResp are passed before the next byte comes, and memory
-- takes each byte; the answers to the host are the `reply` of a `Line`, and the time-out is left out.
use corejack.Prelude.{
  ℕ, zero, suc, ◌+◌, ◌*◌, ◌/◌, ◌%◌, ◌<◌, Bool, false, List, [], ◌∷◌, ◌++◌, ◌≡◌, refl, ap, ◌∙◌,
  arith, ◌==◌, if◌then◌else◌, length, append_assoc, append-nil,
}
use corejack.Text.{Text}
use corejack.Uart.{le_bytes}

-- `header` has the bytes behind `W` that came so far, the last one first; `payload addr left` has the
-- registers addr_q and len_q.
pub data Phase : Type 0 where
  idle released : Phase
  header : Text → Phase
  payload : ℕ → ℕ → Phase

pub record Receiver : Type 0 where
  pub phase : Phase
  pub stored : List (ℕ × ℕ)

abbrev at : Phase → Receiver → Receiver
at phase r = record r { phase = phase }

-- With no byte left the loader is idle again.
abbrev pub writing : ℕ → ℕ → Phase
writing addr zero = idle
writing addr (suc left) = payload addr (suc left)

unfoldable pub in_header : Text → Phase
in_header (s1 ∷ s0 ∷ a3 ∷ a2 ∷ a1 ∷ a0 ∷ []) =
    writing (a0 + 256 * (a1 + 256 * (a2 + 256 * a3))) (s0 + 256 * s1)
in_header bytes = header bytes

-- The first byte of a command; an unknown one gets a NAK.
unfoldable pub command : ℕ → Phase
command c = if c == b'G' then released else if c == b'W' then header [] else idle

-- `addr_q + 32'd1`
abbrev pub next_address : ℕ → ℕ
next_address addr = (addr + 1) % 4294967296

-- A byte of the payload goes to the memory.
abbrev pub store : Phase → ℕ → ℕ → Receiver → Receiver
store phase addr c r = record { phase = phase; stored = r.stored ++ (addr, c) ∷ [] }

-- `len_q - 16'd1` wraps at zero.
unfoldable pub step : Receiver → Phase → ℕ → Receiver
unfolding command in_header
step r idle c = at (command c) r
step r released c = r
step r (header bytes) c = at (in_header (c ∷ bytes)) r
step r (payload addr zero) c = store (payload (next_address addr) 65535) addr c r
step r (payload addr (suc left)) c = store (writing (next_address addr) left) addr c r

unfoldable pub receive : Receiver → Text → Receiver
receive r [] = r
receive r (c ∷ cs) = receive (step r r.phase c) cs

-- A byte for each cell from an address on, and the address 0 behind the last one of 32 bits.
unfoldable pub cells : ℕ → Text → List (ℕ × ℕ)
cells addr [] = []
cells addr (c ∷ cs) = (addr % 4294967296, c) ∷ cells (suc addr) cs

pub receive-append : (r : Receiver) (s t : Text) → receive r (s ++ t) ≡ receive (receive r s) t
unfolding receive
receive-append r [] t = refl
receive-append r (c ∷ s) t = receive-append (step r r.phase c) s t

-- A loader between two commands.
abbrev pub ready : List (ℕ × ℕ) → Bool → Receiver
ready stored is_released = record {
  phase = if is_released then released else idle;
  stored = stored;
}

receive-payload :
    (addr : ℕ) (bytes : Text) (stored : List (ℕ × ℕ))
    → receive (at (writing (addr % 4294967296) (length bytes)) (ready stored false)) bytes
      ≡ ready (stored ++ cells addr bytes) false
unfolding receive step cells
receive-payload addr [] stored = rw (append-nil stored) refl
receive-payload addr (c ∷ bytes) stored =
    let here : List (ℕ × ℕ) = (addr % 4294967296, c) ∷ [] in
    let e : next_address (addr % 4294967296) ≡ suc addr % 4294967296 = omega arith in
    ap (λ a. receive (record { phase = writing a (length bytes); stored = stored ++ here }) bytes) e
    ∙ receive-payload (suc addr) bytes (stored ++ here)
    ∙ ap (λ cs. ready cs false) (append_assoc stored here (cells (suc addr) bytes))

-- A packet that arrives at an idle loader stores its bytes from its address on.
pub receive-packet :
    (addr : ℕ) (bytes : Text) (stored : List (ℕ × ℕ))
    → addr < 4294967296
    → length bytes < 65536
    → receive
        (ready stored false)
        (b'W' ∷ (le_bytes 4 addr ++ (le_bytes 2 (length bytes) ++ bytes)))
      ≡ ready (stored ++ cells addr bytes) false
unfolding receive step le_bytes in_header command
receive-packet addr bytes stored small short =
    let a : addr % 256
          + 256
            * (addr / 256 % 256
                + 256 * (addr / 256 / 256 % 256 + 256 * (addr / 256 / 256 / 256 % 256)))
        ≡ addr % 4294967296 =
      omega arith in
    let n : length bytes % 256 + 256 * (length bytes / 256 % 256) ≡ length bytes = omega arith in
    rw (a, n) (receive-payload addr bytes stored)
