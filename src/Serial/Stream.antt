-- ===== src/Serial/Stream.antt =====
-- What becomes of the bytes that the terminal sends: `serial_console` of src/serial.c.
use kvm_host.Common.{
  ℕ, ◌≡◌, refl, ap, ◌∙◌, sym, Bool, true, false, not, ◌&&◌, ◌⊎◌, inl, inr, List, [], ◌∷◌, ◌++◌,
  ◌==◌, if◌then◌else◌, Bool-cases, length, ltb,
}
use mathlib.Core.Bool.{false≢true}
use mathlib.Core.List.{map, append-nil, append_assoc}
use kvm_host.Fifo.{fifo_is_full, fifo_put}
use kvm_host.Fifo.Queue
use kvm_host.Fifo.Refine
use kvm_host.Fifo.Refine.{contents, fifo_put_refines, fifo_put_room, fifo_put-IsValid}
use kvm_host.Serial.{Serial, serial_update_irq}
use kvm_host.Serial.Console.{
  Input, byte, fails, Round, exits, stops, goes_on, Outcome, exited, returned, resume, finish,
  console_byte, console_loop, serial_console,
}

-- The bytes that reach the guest: the escape character is dropped, unless it is itself escaped.
abbrev pub deliver : Bool → List ℕ → List ℕ
deliver escaped [] = []
deliver escaped (c ∷ cs) =
    let opens = not escaped && (c == 0x01) in
    let others = deliver opens cs in if opens then others else c ∷ others

-- Why the loop left off in front of `left`, with `rest` for a later call: nothing was left, the ring is
-- full, or a `read` failed, which uses that `read` up.
abbrev pub Ended : Serial → List Input → List Input → Type 0
Ended s' left rest =
    ((rest ≡ left) × ((left ≡ []) ⊎ (fifo_is_full s'.rx_buf ≡ true))) ⊎ (left ≡ fails ∷ rest)

-- what the escape character and the one that ends the process make of bytes
abbrev pub leaves : Bool → List ℕ → Bool
leaves escaped [] = false
leaves escaped (c ∷ cs) =
    let later = leaves (not escaped && (c == 0x01)) cs in
    if escaped && (c == 0x78) then true else later

-- The input splits into the bytes that were read, which went into the ring, in order and behind what
-- it held, and what follows them.
pub record Moved (s : Serial) (inputs : List Input) (s' : Serial) (rest : List Input) : Type 0 where
  pub taken : List ℕ
  pub left : List Input
  pub split : inputs ≡ map byte taken ++ left
  pub order : contents s'.rx_buf ≡ contents s.rx_buf ++ deliver s.escaped taken
  pub stays : leaves s.escaped taken ≡ false
  pub ended : Ended s' left rest

-- the process ends at the second character of the exit sequence, with all in front of it read
pub record Left (s : Serial) (inputs : List Input) : Type 0 where
  pub taken : List ℕ
  pub left : List Input
  pub split : inputs ≡ map byte taken ++ left
  pub leaves_now : leaves s.escaped taken ≡ true

abbrev pub Result : Serial → List Input → Outcome → Type 0
Result s inputs exited = Left s inputs
Result s inputs (returned s' rest) = Moved s inputs s' rest

pushes : (c : ℕ) (q : List ℕ) → ltb (length q) 64 ≡ true → Queue.push q c ≡ (q ++ c ∷ [], true)
unfolding Queue.push
pushes c q h = rw h

refuses : (c : ℕ) (q : List ℕ) → ltb (length q) 64 ≡ false → Queue.push q c ≡ (q, false)
unfolding Queue.push
refuses c q h = rw h

-- the interrupt registers do not matter to the ring
update :
    (s : Serial) (inputs : List Input) (s' : Serial) (rest : List Input)
    → Moved s inputs s' rest
    → Moved s inputs (serial_update_irq s') rest
unfolding serial_update_irq
update s inputs s' rest m = record {
  taken = m.taken;
  left = m.left;
  split = m.split;
  order = m.order;
  stays = m.stays;
  ended = m.ended;
}

-- a `put` into a ring with room
put_contents :
    (s : Serial) (c : ℕ)
    → Refine.IsValid s.rx_buf
    → fifo_is_full s.rx_buf ≡ false
    → contents (fifo_put s.rx_buf c).0 ≡ contents s.rx_buf ++ c ∷ []
put_contents s c v room =
    pushed (contents s.rx_buf) _ _ (fifo_put_refines c v) (fifo_put_room s.rx_buf c ∙ ap not room)
  where
    pushed :
        (q q' : List ℕ) (done : Bool) → (q', done) ≡ Queue.push q c → done ≡ true → q' ≡ q ++ c ∷ []
    pushed q q' done e d = elim (Bool-cases (ltb (length q) 64)) [
      | inl room' ↦ ap (λ p. p.0) e ∙ ap (λ p. p.0) (pushes c q room')
      | inr full ↦ absurd (false≢true (sym (ap (λ p. p.1) (e ∙ refuses c q full)) ∙ d))
    ]

-- A round with room: the escape character opens an escape, any other byte goes into the ring, and the
-- exit character behind an escape ends the process.
abbrev Advances : Serial → ℕ → Round → Type 0
Advances s c exits = (cs : List ℕ) → leaves s.escaped (c ∷ cs) ≡ true
Advances s c (stops s') = ⊥
Advances s c (goes_on s') =
    Refine.IsValid s'.rx_buf
    × ((cs : List ℕ)
        → contents s'.rx_buf ++ deliver s'.escaped cs
          ≡ contents s.rx_buf ++ deliver s.escaped (c ∷ cs))
    × ((cs : List ℕ) → leaves s.escaped (c ∷ cs) ≡ leaves s'.escaped cs)

module _ (s : Serial) (c : ℕ) (v : Refine.IsValid s.rx_buf)
    (room : fifo_is_full s.rx_buf ≡ false) where
  console_byte-Advances : Advances s c (console_byte s c)
  unfolding console_byte
  console_byte-Advances = elim (Bool-cases (s.escaped && (c == 0x78))) [
    | inl e ↦ rw e (λ cs. rw e refl)
    | inr e ↦ elim (Bool-cases (not s.escaped && (c == 0x01))) [
      | inl f ↦ rw (e, f) (v, (λ cs. rw f refl), λ cs. rw (e, f) refl)
      | inr f ↦
          rw (e, f, fifo_put_room s.rx_buf c, room)
            (
              fifo_put-IsValid c v,
              (λ cs.
                  rw (put_contents s c v room, f)
                    (append_assoc (contents s.rx_buf) (c ∷ []) (deliver false cs))),
              λ cs. rw (e, f) refl,
            )
    ]
  ]

-- One more byte in front of what a later call of the loop moves.
Result-cons :
    (s s' : Serial) (c : ℕ) (inputs : List Input) (o : Outcome)
    → Advances s c (goes_on s')
    → Result s' inputs o
    → Result s (byte c ∷ inputs) o
Result-cons s s' c inputs exited (valid, step, same) l = record {
  taken = c ∷ l.taken;
  left = l.left;
  split = ap (λ i. byte c ∷ i) l.split;
  leaves_now = same l.taken ∙ l.leaves_now;
}
Result-cons s s' c inputs (returned s'' rest) (valid, step, same) m = record {
  taken = c ∷ m.taken;
  left = m.left;
  split = ap (λ i. byte c ∷ i) m.split;
  order = m.order ∙ step m.taken;
  stays = same m.taken ∙ m.stays;
  ended = m.ended;
}

-- nothing was read
untouched : (s : Serial) (inputs rest : List Input) → Ended s inputs rest → Moved s inputs s rest
untouched s inputs rest e = record {
  taken = [];
  left = inputs;
  split = refl;
  order = sym (append-nil _);
  stays = refl;
  ended = e;
}

console_loop-Result :
    (s : Serial) (inputs : List Input)
    → Refine.IsValid s.rx_buf
    → Result s inputs (console_loop s inputs)
unfolding console_loop
console_loop-Result s [] v = untouched s [] [] (inl (refl, inl refl))
console_loop-Result s (fails ∷ rest) v = elim (Bool-cases (fifo_is_full s.rx_buf)) [
  | inl full ↦ rw full (untouched s (fails ∷ rest) (fails ∷ rest) (inl (refl, inr full)))
  | inr room ↦ rw room (untouched s (fails ∷ rest) rest (inr refl))
]
console_loop-Result s (byte c ∷ rest) v = elim (Bool-cases (fifo_is_full s.rx_buf)) [
  | inl full ↦ rw full (untouched s (byte c ∷ rest) (byte c ∷ rest) (inl (refl, inr full)))
  | inr room ↦ rw room (
      after (console_byte s c) (console_byte-Advances s c v room)
        λ s' v'. console_loop-Result s' rest v')
]
  where
    after :
        (r : Round)
        → Advances s c r
        → ((s' : Serial) → Refine.IsValid s'.rx_buf → Result s' rest (console_loop s' rest))
        → Result s (byte c ∷ rest) (resume (λ s'. console_loop s' rest) rest r)
    after exits a ih = record { taken = c ∷ []; left = rest; split = refl; leaves_now = a [] }
    after (stops s') a ih = absurd a
    after (goes_on s') a ih = Result-cons s s' c rest (console_loop s' rest) a (ih s' a.0)

-- For every input, of bytes and of failing calls of `read`: `serial_console` ends the process only
-- when it has read the exit sequence. Else it returns, the bytes that it read have no exit sequence
-- and lie in the ring in order, less escape characters, behind those that were there, and it left off
-- because nothing was left at the terminal, because the ring is full, or because a `read` failed; what
-- is left at the terminal is the rest, less the `read` that failed.
pub serial_console-Result :
    (s : Serial) (inputs : List Input)
    → Refine.IsValid s.rx_buf
    → Result s inputs (serial_console s inputs)
unfolding serial_console
serial_console-Result s inputs v = finished (console_loop s inputs) (console_loop-Result s inputs v)
  where
    finished : (o : Outcome) → Result s inputs o → Result s inputs (finish o)
    finished exited l = l
    finished (returned s' rest) m = update s inputs s' rest m
