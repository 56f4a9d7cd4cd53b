-- ===== src/Uart/Delivery.antt =====
-- What the loader has got when a run of bin/uart_sram_load.py ends well, whatever the line does.
use corejack.Prelude.{
  ℕ, zero, suc, ◌+◌, ◌≤◌, ◌<◌, Bool, true, false, not, List, [], ◌∷◌, ◌++◌, some, ◌≡◌, refl, sym,
  ap, ◌∙◌, arith, ltb, if◌then◌else◌, is_nil, length, take, drop, append_assoc, append-nil,
  Bool-cases, Option-cases, inl, inr,
}
use corejack.Text.{Text, codes}
use corejack.Uart.{
  Line, Port, Outcome, going, stopped, ◌>>=◌, send, write_bytes, write_all, answered, expect_ack,
  le_bytes, to_bytes, send_packet, write_chunk, write_chunks, Arguments, note, loaded, uart_text,
  close, release, expect_texts, capture_text, session, load, fresh,
}
use corejack.Uart.Receiver.{
  Receiver, ready, receive, step, cells, command, receive-append, receive-packet,
}

pub >>=-eq-going :
    (m : Outcome) (f : Port → Outcome) {q : Port}
    → (m >>= f) ≡ going q
    → (p : Port) × (m ≡ going p) × (f p ≡ going q)
>>=-eq-going (going p) f h = (p, refl, h)
>>=-eq-going (stopped e p) f h = cc

write_bytes-sent :
    (line : Line) (left : ℕ) (view : Text) (p : Port) {q : Port}
    → write_bytes line left view p ≡ going q
    → q.sent ≡ p.sent ++ view
unfolding write_bytes
write_bytes-sent line left [] p h = ground (arith, append-nil p.sent)
write_bytes-sent line (suc left) (c ∷ view) p h =
    write_bytes-sent line left view (send c p) h ∙ append_assoc p.sent (c ∷ []) view
write_bytes-sent line zero (c ∷ view) p {q} h = elim (Option-cases (line.room p.writes)) [
  | inl late ↦ absurd (ground arith)
  | inr (more, e) ↦
      let sent_first = send c (record p { writes = suc p.writes }) in
      write_bytes-sent line more view sent_first {q = q} (ground (arith, h, e))
      ∙ append_assoc p.sent (c ∷ []) view
]

expect_ack-sent :
    (line : Line) (p : Port) {q : Port} → expect_ack line p ≡ going q → q.sent ≡ p.sent
unfolding expect_ack answered
expect_ack-sent line p h = ground arith

-- A message and its acknowledgement.
acked-sent :
    (line : Line) (view : Text) (p : Port) {q : Port}
    → (write_all line view p >>= expect_ack line) ≡ going q
    → q.sent ≡ p.sent ++ view
unfolding write_all
acked-sent line view p h =
    let (r, er, h1) = >>=-eq-going (write_bytes line 0 view p) (expect_ack line) h in
    expect_ack-sent line r h1 ∙ write_bytes-sent line 0 view p er

abbrev pub got : Port → Receiver
got p = receive (ready [] false) p.sent

got-append :
    (p q : Port) (view : Text) {r : Receiver}
    → got p ≡ r
    → q.sent ≡ p.sent ++ view
    → got q ≡ receive r view
got-append p q view g e =
    ap (receive (ready [] false)) e
    ∙ receive-append (ready [] false) p.sent view
    ∙ ap (λ r. receive r view) g

packet-acked :
    (line : Line) (addr : ℕ) (payload : Text) (p : Port) {q : Port}
    → is_nil payload ≡ false
    → write_chunk line addr payload p ≡ going q
    → (addr < 4294967296)
      × (length payload < 65536)
      × ((write_all line (b'W' ∷ (le_bytes 4 addr ++ (le_bytes 2 (length payload) ++ payload))) p
            >>= expect_ack line)
          ≡ going q)
unfolding write_chunk send_packet to_bytes
packet-acked line addr payload p e h = (ground arith, ground arith, ground arith)

write_chunk-got :
    (line : Line) (addr : ℕ) (payload : Text) (p : Port) {q : Port} {stored : List (ℕ × ℕ)}
    → got p ≡ ready stored false
    → write_chunk line addr payload p ≡ going q
    → got q ≡ ready (stored ++ cells addr payload) false
unfolding write_chunk cells receive
write_chunk-got line addr [] p {q} {stored} g h =
    rw (append-nil stored) (got-append p q [] g (ground (arith, append-nil p.sent)))
write_chunk-got line addr (c ∷ cs) p {q} {stored} g h =
    let (small, short, acked) = packet-acked line addr (c ∷ cs) p refl h in
    got-append p q _ g (acked-sent line _ p acked) ∙ receive-packet addr (c ∷ cs) stored small short

cells-split :
    (addr size : ℕ) (bytes : Text)
    → cells addr bytes ≡ cells addr (take size bytes) ++ cells (addr + size) (drop size bytes)
unfolding cells
cells-split addr zero bytes = ap (λ a. cells a bytes) (omega arith)
cells-split addr (suc size) [] = refl
cells-split addr (suc size) (c ∷ bytes) =
    let e : suc addr + size ≡ addr + suc size = omega arith in
    rw (cells-split (suc addr) size bytes, e) refl

drop-nil : (n : ℕ) → drop {A = ℕ} n [] ≡ []
drop-nil zero = refl
drop-nil (suc n) = refl

drop-drop :
    (offset size : ℕ) (bytes : Text) → drop size (drop offset bytes) ≡ drop (offset + size) bytes
drop-drop zero size bytes = ap (λ n. drop n bytes) (omega arith)
drop-drop (suc offset) size [] = drop-nil size ∙ sym (drop-nil (suc offset + size))
drop-drop (suc offset) size (c ∷ bytes) =
    let e : suc offset + size ≡ suc (offset + size) = omega arith in
    rw e (drop-drop offset size bytes)

-- Past the end, nothing is left.
drop-all : (n : ℕ) (bytes : Text) → length bytes ≤ n → drop n bytes ≡ []
drop-all zero [] h = refl
drop-all zero (c ∷ bytes) h = absurd (omega (arith, h))
drop-all (suc n) [] h = refl
drop-all (suc n) (c ∷ bytes) h = drop-all n bytes (omega (arith, h))

write_chunks-got :
    (line : Line) (addr size : ℕ) (image : Text) (rounds offset : ℕ) (p : Port) {q : Port}
    {stored : List (ℕ × ℕ)}
    → 0 < size
    → length image ≤ offset + rounds
    → got p ≡ ready stored false
    → write_chunks line addr size image rounds offset p ≡ going q
    → got q ≡ ready (stored ++ cells (addr + offset) (drop offset image)) false
unfolding write_chunks cells
write_chunks-got line addr size image zero offset p {q} {stored} pos enough g h =
    let e : p ≡ q = ground arith in
    rw (drop-all offset image (omega (arith, enough)), append-nil stored, ← e) g
write_chunks-got line addr size image (suc rounds) offset p {q} {stored} pos enough g h =
    elim (Bool-cases (ltb offset (length image))) [
      | inr past ↦
          let e : p ≡ q = ground arith in
          rw (drop-all offset image (ground arith), append-nil stored, ← e) g
      | inl more ↦
          let chunk = take size (drop offset image) in
          let loop = write_chunks line addr size image rounds (offset + size) in
          let (r, er, rest) =
            >>=-eq-going (write_chunk line (addr + offset) chunk p) loop {q = q}
              (ground (arith, h, more)) in
          let last =
            write_chunks-got line addr size image rounds (offset + size) r pos
              (omega (arith, enough, pos)) (write_chunk-got line (addr + offset) chunk p g er)
              rest in
          let pieces : cells (addr + offset) (drop offset image)
              ≡ cells (addr + offset) chunk
                ++ cells (addr + (offset + size)) (drop (offset + size) image) =
            cells-split (addr + offset) size (drop offset image)
            ∙ ap (λ a. cells (addr + offset) chunk ++ cells a (drop size (drop offset image)))
                (omega arith)
            ∙ ap (λ bytes. cells (addr + offset) chunk ++ cells (addr + (offset + size)) bytes)
                (drop-drop offset size image) in
          rw pieces (last ∙ ap (λ cs. ready cs false) (append_assoc stored _ _))
    ]

-- A run that ends well.
pub record Delivered (args : Arguments) (image : Text) (q : Port) : Type 0 where
  pub received : receive (ready [] false) q.sent ≡ ready (cells args.addr image) (not args.no_go)
  pub is_closed : q.closed ≡ true

release-got :
    (line : Line) (no_go : Bool) (p : Port) {q : Port} {stored : List (ℕ × ℕ)}
    → got p ≡ ready stored false
    → release line no_go p ≡ going q
    → got q ≡ ready stored (not no_go)
unfolding release receive step command
release-got line true p {q} {stored} g h = let e : p ≡ q = ground arith in rw (← e) g
release-got line false p {q} {stored} g h =
    let (w, ew, h1) = >>=-eq-going (write_all line (codes "G") p) _ h in
    let (r, er, h2) = >>=-eq-going (expect_ack line w) _ h1 in
    let acked : (write_all line (codes "G") p >>= expect_ack line) ≡ going r = rw ew er in
    let sent : q.sent ≡ r.sent = ground (arith, h2) in
    got-append p q (codes "G") g (sent ∙ acked-sent line (codes "G") p acked)

expect_texts-port :
    (text : Text) (xs : List Text) (p : Port) {q : Port} → expect_texts text xs p ≡ going q → p ≡ q
unfolding expect_texts
expect_texts-port text [] p h = ground arith
expect_texts-port text (x ∷ xs) p h = expect_texts-port text xs p (ground arith)

capture_text-sent :
    (line : Line) (args : Arguments) (p : Port) {q : Port}
    → capture_text line args p ≡ going q
    → q.sent ≡ p.sent
unfolding capture_text
capture_text-sent line args p {q} h = elim (Bool-cases args.capture) [
  | inr off ↦ ground arith
  | inl on ↦
      let start = if is_nil line.captured then p else note (uart_text line.captured) p in
      let e : start ≡ q =
        expect_texts-port line.captured args.expect start (ground (arith, h, on)) in
      elim (Bool-cases (is_nil line.captured)) [
        | inl nothing ↦ ground (arith, e)
        | inr text ↦ ground (arith, e)
      ]
]

session-got :
    (line : Line) (args : Arguments) (image : Text) {q : Port}
    → 0 < args.chunk_size
    → session line args image fresh ≡ going q
    → got q ≡ ready (cells args.addr image) (not args.no_go)
unfolding session receive step command
session-got line args image {q} pos h =
    let (asked, e1, h1) = >>=-eq-going (write_all line (codes "?") fresh) _ h in
    let (acked, e2, h2) = >>=-eq-going (expect_ack line asked) _ h1 in
    let (written, e3, h3) =
      >>=-eq-going (write_chunks line args.addr args.chunk_size image (length image) 0 acked) _
        h2 in
    let noted = note (loaded (length image) args.addr) written in
    let (freed, e4, h4) = >>=-eq-going (release line args.no_go noted) _ h3 in
    let ping : (write_all line (codes "?") fresh >>= expect_ack line) ≡ going acked = rw e1 e2 in
    let g0 : got acked ≡ ready [] false =
      got-append fresh acked (codes "?") refl (acked-sent line (codes "?") fresh ping) in
    let g1 =
      write_chunks-got line args.addr args.chunk_size image (length image) 0 acked pos (omega arith)
        g0 e3 in
    let g2 : got noted ≡ ready (cells args.addr image) false =
      g1 ∙ ap (λ a. ready (cells a image) false) (omega arith) in
    let g3 = release-got line args.no_go noted g2 e4 in
    ap (receive (ready [] false)) (capture_text-sent line args freed h4) ∙ g3

close-eq-going :
    (m : Outcome) {q : Port}
    → close m ≡ going q
    → (p : Port) × (m ≡ going p) × (record p { closed = true } ≡ q)
close-eq-going (going p) h = (p, refl, ground arith)
close-eq-going (stopped e p) h = cc

closed-Delivered :
    (args : Arguments) (image : Text) (p : Port) {q : Port}
    → got p ≡ ready (cells args.addr image) (not args.no_go)
    → record p { closed = true } ≡ q
    → Delivered args image q
closed-Delivered args image p g e = record {
  received = ap (λ (r : Port). got r) (sym e) ∙ g;
  is_closed = ap (λ (r : Port). r.closed) (sym e);
}

-- If a run ends with status 0, a loader that gets the bytes sent and whose memory takes each one has stored
-- the bytes of the image in order, each of them once and nothing else, the byte at an offset at the
-- sum of the start and the offset, modulo 2^32 for an image that goes past 4 GiB; it has released the
-- core just when that was asked for, and the port is closed: whatever sizes `os.write` accepted.
pub load-Delivered :
    (line : Line) (args : Arguments) (image : Text) {q : Port}
    → load line args (some image) ≡ going q
    → Delivered args image q
unfolding load
load-Delivered line args image {q} h =
    let closing : close (session line args image fresh) ≡ going q = ground (arith, h) in
    let (p, ep, e) = close-eq-going (session line args image fresh) closing in
    closed-Delivered args image p (session-got line args image (ground (arith, h)) ep) e
