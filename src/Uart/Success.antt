-- ===== src/Uart/Success.antt =====
-- When a run of bin/uart_sram_load.py ends well.
use corejack.Prelude.{
  ℕ, zero, suc, ◌+◌, ◌≤◌, ◌<◌, Bool, true, false, [], ◌∷◌, ◌++◌, some, ◌≡◌, refl, arith, ◌==◌, ltb,
  length, take, drop, Bool-cases, inl, inr, any, length-drop, ltb→lt,
}
use corejack.Text.{Text, codes}
use corejack.Uart.{
  Line, Port, Outcome, going, stopped, ◌>>=◌, send, write_bytes, write_all, answered, expect_ack,
  le_bytes, to_bytes, send_packet, write_chunk, write_chunks, Arguments, note, loaded, released,
  release, capture_text, session, load, fresh, baud_rates,
}

-- The port is always ready for writing in time, and the loader acknowledges everything.
pub record Works (line : Line) : Type 0 where
  pub ready_in_time : (n : ℕ) → (more : ℕ) × (line.room n ≡ some more)
  pub acknowledges : (n : ℕ) → line.reply n ≡ some 6

abbrev Ends : Outcome → Type 0
Ends m = (q : Port) × (m ≡ going q)

write_bytes-Ends :
    (line : Line)
    → Works line
    → (left : ℕ) (view : Text) (p : Port) → Ends (write_bytes line left view p)
unfolding write_bytes
write_bytes-Ends line w left [] p = (p, refl)
write_bytes-Ends line w (suc left) (c ∷ view) p = write_bytes-Ends line w left view (send c p)
write_bytes-Ends line w zero (c ∷ view) p =
    let (more, e) = w.ready_in_time p.writes in
    let (q, rest) =
      write_bytes-Ends line w more view (send c (record p { writes = suc p.writes })) in
    (q, ground (arith, e, rest))

>>=-Ends : (m : Outcome) (f : Port → Outcome) → Ends m → ((p : Port) → Ends (f p)) → Ends (m >>= f)
>>=-Ends (going p) f h k = k p
>>=-Ends (stopped e p) f (q, h) k = cc

expect_ack-Ends : (line : Line) → Works line → (p : Port) → Ends (expect_ack line p)
unfolding expect_ack answered
expect_ack-Ends line w p =
    (record p { reads = suc p.reads }, rw (expect_ack, w.acknowledges p.reads) refl)

acked-Ends :
    (line : Line)
    → Works line
    → (view : Text) (p : Port) → Ends (write_all line view p >>= expect_ack line)
unfolding write_all
acked-Ends line w view p =
    >>=-Ends (write_bytes line 0 view p) (expect_ack line) (write_bytes-Ends line w 0 view p)
      (expect_ack-Ends line w)

length-take : (n : ℕ) (xs : Text) → (length (take n xs) ≤ n) × (length (take n xs) ≤ length xs)
length-take zero xs = (omega arith, omega arith)
length-take (suc n) [] = (omega arith, omega arith)
length-take (suc n) (x ∷ xs) = let (a, b) = length-take n xs in (omega (arith, a), omega (arith, b))

write_chunk-Ends :
    (line : Line)
    → Works line
    → (addr : ℕ) (payload : Text) (p : Port) → addr + length payload ≤ 4294967296
    → length payload ≤ 65535
    → Ends (write_chunk line addr payload p)
unfolding write_chunk send_packet to_bytes
write_chunk-Ends line w addr [] p h short = (p, refl)
write_chunk-Ends line w addr (c ∷ cs) p h short =
    let (q, e) =
      acked-Ends line w (b'W' ∷ (le_bytes 4 addr ++ (le_bytes 2 (length (c ∷ cs)) ++ c ∷ cs))) p in
    let low : ltb addr 4294967296 ≡ true = ground (arith, h) in
    let fits : ltb (length (c ∷ cs)) 65536 ≡ true = ground (arith, short) in
    let allowed : ltb 65535 (length (c ∷ cs)) ≡ false = ground (arith, short) in
    (q, rw (allowed, low, fits) e)

write_chunks-Ends :
    (line : Line)
    → Works line
    → (addr size : ℕ) (image : Text) (rounds offset : ℕ) (p : Port)
    → addr + length image ≤ 4294967296
    → size ≤ 65535
    → Ends (write_chunks line addr size image rounds offset p)
unfolding write_chunks
write_chunks-Ends line w addr size image zero offset p h small = (p, refl)
write_chunks-Ends line w addr size image (suc rounds) offset p h small =
    elim (Bool-cases (ltb offset (length image))) [
      | inr past ↦ (p, rw past refl)
      | inl more ↦
          let chunk = take size (drop offset image) in
          let (short, inside) = length-take size (drop offset image) in
          let loop = write_chunks line addr size image rounds (offset + size) in
          let first =
            write_chunk-Ends line w (addr + offset) chunk p
              (omega (arith, h, inside, length-drop offset image, ltb→lt _ _ more))
              (omega (arith, short, small)) in
          rw more (
            >>=-Ends (write_chunk line (addr + offset) chunk p) loop first
              (λ r. write_chunks-Ends line w addr size image rounds (offset + size) r h small))
    ]

release-Ends : (line : Line) → Works line → (no_go : Bool) (p : Port) → Ends (release line no_go p)
unfolding release
release-Ends line w true p = (p, refl)
release-Ends line w false p =
    >>=-Ends (write_all line (codes "G") p) _
      (unfold write_all in write_bytes-Ends line w 0 (codes "G") p)
      (λ q.
        >>=-Ends (expect_ack line q) _ (expect_ack-Ends line w q) (λ r. (note released r, refl)))

session-Ends :
    (line : Line) (args : Arguments) (image : Text)
    → Works line
    → args.addr + length image ≤ 4294967296
    → args.chunk_size ≤ 65535
    → args.capture ≡ false
    → (start : Port) → Ends (session line args image start)
unfolding session capture_text write_all
session-Ends line args image w fits small quiet start =
    >>=-Ends (write_all line (codes "?") start) _ (write_bytes-Ends line w 0 (codes "?") start)
      (λ p. >>=-Ends (expect_ack line p) _ (expect_ack-Ends line w p) (λ q.
        >>=-Ends (write_chunks line args.addr args.chunk_size image (length image) 0 q) _
          (write_chunks-Ends line w args.addr args.chunk_size image (length image) 0 q fits small)
          (λ r.
            >>=-Ends (release line args.no_go (note (loaded (length image) args.addr) r)) _
              (release-Ends line w args.no_go (note (loaded (length image) args.addr) r))
              (λ t. (t, rw quiet refl)))))

-- A run ends well if the port is always ready for writing in time, the loader acknowledges everything, the
-- image fits below 4 GiB at its address, the chunk size and the baud rate are allowed, and no output
-- is captured.
pub load-going :
    (line : Line) (args : Arguments) (image : Text)
    → Works line
    → args.addr + length image ≤ 4294967296
    → 0 < args.chunk_size
    → args.chunk_size ≤ 65535
    → any (λ rate. rate == args.baud) baud_rates ≡ true
    → args.capture ≡ false
    → (q : Port) × (load line args (some image) ≡ going q)
unfolding load
load-going line args image w fits pos small known quiet =
    let (p, e) = session-Ends line args image w fits small quiet fresh in
    (record p { closed = true }, ground (arith, e, known, pos, small))
