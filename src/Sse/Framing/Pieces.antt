-- ===== src/Sse/Framing/Pieces.antt =====
-- The pieces in which a text arrives, and its lines (the read loop of sse.ts).
use mathlib.Core.Path.{subst}
use agent_workflow_platform.Prelude.{
  ℕ, suc, ◌≤◌, ◌<◌, ◌+◌, false, List, [], ◌∷◌, ◌++◌, Option, ◌≡◌, refl, ap, sym, ◌∙◌, arith,
  append-nil, append_assoc, eqb, ltb, length, length-append, Bool-cases, inl, inr, if◌then◌else◌,
}
use agent_workflow_platform.Sse.Framing.{
  Units, Message, newline, attach, split_lines, pop_last, deliver, Reader, reading, overflow,
  take_piece, receive, receive_all, max_buffer,
}

-- One unit more in front of the first line, or of the rest where there is no line.
push : ℕ → List Units × Units → List Units × Units
push c ([], rest) = ([], c ∷ rest)
push c (l ∷ ls, rest) = ((c ∷ l) ∷ ls, rest)

-- The complete lines of a text and what is left behind the last newline.
unfoldable pub cut : Units → List Units × Units
unfolding push
cut [] = ([], [])
cut (c ∷ s) = let (ls, rest) = cut s in if eqb c newline then ([] ∷ ls, rest) else push c (ls, rest)

-- `split_lines` gives at least one line
split_lines-cons : (s : Units) → (l : Units) × (ls : List Units) × (split_lines s ≡ l ∷ ls)
unfolding split_lines attach
split_lines-cons [] = ([], [], refl)
split_lines-cons (c ∷ s) = elim (Bool-cases (eqb c newline)) [
  | inl e ↦ ([], split_lines s, rw e)
  | inr e ↦ let (l, ls, f) = split_lines-cons s in (c ∷ l, ls, rw (e, f))
]

pop_last-attach :
    (c : ℕ) (l : Units) (ls : List Units) → pop_last ((c ∷ l) ∷ ls) ≡ push c (pop_last (l ∷ ls))
unfolding pop_last push
pop_last-attach c l [] = refl
pop_last-attach c l (m ∷ ms) = refl

pop_last-nil :
    (l : Units) (ls : List Units)
    → pop_last ([] ∷ l ∷ ls) ≡ ([] ∷ (pop_last (l ∷ ls)).0, (pop_last (l ∷ ls)).1)
unfolding pop_last
pop_last-nil l ls = refl

attach-cons : (c : ℕ) (l : Units) (ls : List Units) → attach c (l ∷ ls) ≡ (c ∷ l) ∷ ls
unfolding attach
attach-cons c l ls = refl

pub cut-split_lines : (s : Units) → pop_last (split_lines s) ≡ cut s
unfolding split_lines cut
cut-split_lines [] = unfold pop_last in refl
cut-split_lines (c ∷ s) =
    let (l, ls, f) = split_lines-cons s in
    let ih : pop_last (l ∷ ls) ≡ cut s = rw f at (cut-split_lines s) in
    elim (Bool-cases (eqb c newline)) [
      | inl e ↦ rw (e, f) (pop_last-nil l ls ∙ ap (λ (r : List Units × Units). ([] ∷ r.0, r.1)) ih)
      | inr e ↦ rw (e, f) (rw (attach-cons c l ls) (pop_last-attach c l ls ∙ ap (push c) ih))
    ]

-- Lines in front of others.
abbrev pub before : List Units → List Units × Units → List Units × Units
before ls (ms, rest) = (ls ++ ms, rest)

push-before :
    (c : ℕ) (l : Units) (ls : List Units) (r : List Units × Units)
    → push c (before (l ∷ ls) r) ≡ before ((c ∷ l) ∷ ls) r
unfolding push
push-before c l ls (ms, rest) = refl

push-cut :
    (c : ℕ) (b : Units) (r t : List Units × Units)
    → eqb c newline ≡ false
    → t ≡ before r.0 (cut (r.1 ++ b))
    → push c t ≡ before (push c r).0 (cut ((push c r).1 ++ b))
unfolding cut push
push-cut c b ([], rest) t e h = rw e (ap (push c) h)
push-cut c b (l ∷ ls, rest) t e h = ap (push c) h ∙ push-before c l ls (cut (rest ++ b))

-- Cutting a text in two: the lines of the first part, then those of its rest with the second part.
pub cut-append : (a b : Units) → cut (a ++ b) ≡ before (cut a).0 (cut ((cut a).1 ++ b))
unfolding cut
cut-append [] b = refl
cut-append (c ∷ a) b = elim (Bool-cases (eqb c newline)) [
  | inl e ↦ rw e (ap (before ([] ∷ [])) (cut-append a b))
  | inr e ↦ rw e (push-cut c b (cut a) (cut (a ++ b)) e (cut-append a b))
]

length-push : (c : ℕ) (r : List Units × Units) → length (push c r).1 ≤ suc (length r.1)
unfolding push
length-push c ([], rest) = omega arith
length-push c (l ∷ ls, rest) = omega arith

pub length-cut : (text : Units) → length (cut text).1 ≤ length text
unfolding cut
length-cut [] = omega arith
length-cut (c ∷ s) = elim (Bool-cases (eqb c newline)) [
  | inl e ↦ rw e (omega (arith, length-cut s))
  | inr e ↦ rw e (omega (arith, length-cut s, length-push c (cut s)))
]

-- The pieces, one after the other.
abbrev pub join : List Units → Units
join [] = []
join (p ∷ ps) = p ++ join ps

overflow≢reading :
    {V : Type 0} {sent sent' : List (Message V)} {rest : Units}
    → overflow sent ≡ reading sent' rest
    → ⊥
overflow≢reading e = cc

abbrev sent_of : {V : Type 0} → Reader V → List (Message V)
sent_of (reading sent rest) = sent
sent_of (overflow sent) = sent

abbrev buffer_of : {V : Type 0} → Reader V → Units
buffer_of (reading sent rest) = rest
buffer_of (overflow sent) = []

module _ {V : Type 0} (parse_json : Units → Option V) where
  deliver-append :
      (ls ms : List Units)
      → deliver parse_json (ls ++ ms) ≡ deliver parse_json ls ++ deliver parse_json ms
  unfolding deliver
  deliver-append [] ms = refl
  deliver-append (l ∷ ls) ms = simp (deliver-append ls ms, append_assoc)

  -- The reader has read a text: its lines are delivered, its rest is in the buffer.
  abbrev pub HasRead : Units → Reader V → Type 0
  HasRead text r = r ≡ reading (deliver parse_json (cut text).0) (cut text).1

  overflow_stays :
      (ps : List Units) (sent : List (Message V))
      → receive_all parse_json ps (overflow sent) ≡ overflow sent
  unfolding receive_all receive
  overflow_stays [] sent = refl
  overflow_stays (p ∷ ps) sent = overflow_stays ps sent

  take_piece-HasRead :
      (text piece : Units)
      → ltb max_buffer (length ((cut text).1 ++ piece)) ≡ false
      → HasRead
          (text ++ piece)
          (take_piece parse_json (deliver parse_json (cut text).0) ((cut text).1 ++ piece))
  unfolding take_piece
  take_piece-HasRead text piece fits =
      rw (fits, cut-split_lines ((cut text).1 ++ piece), cut-append text piece)
        (rw (deliver-append (cut text).0 (cut ((cut text).1 ++ piece)).0))

  -- One piece that leaves room in the buffer.
  receive-HasRead :
      (text piece : Units) (r : Reader V)
      → HasRead text r
      → length ((cut text).1 ++ piece) ≤ max_buffer
      → HasRead (text ++ piece) (receive parse_json piece r)
  unfolding receive
  receive-HasRead text piece r h fits = rw h (take_piece-HasRead text piece (ground arith))

  -- One piece that does not.
  receive-overflow :
      (text piece : Units) (r : Reader V)
      → HasRead text r
      → max_buffer < length ((cut text).1 ++ piece)
      → receive parse_json piece r ≡ overflow (deliver parse_json (cut text).0)
  unfolding receive take_piece
  receive-overflow text piece r h big = rw h (ground arith)

  receive_all-HasRead :
      (ps : List Units) (text : Units) (r : Reader V) (sent : List (Message V)) (rest : Units)
      → HasRead text r
      → receive_all parse_json ps r ≡ reading sent rest
      → HasRead (text ++ join ps) (reading sent rest)
  unfolding receive_all
  receive_all-HasRead [] text r sent rest h e =
      subst (λ t. HasRead t (reading sent rest)) (sym (append-nil text)) (sym e ∙ h)
  receive_all-HasRead (p ∷ ps) text r sent rest h e =
      elim (Bool-cases (ltb max_buffer (length ((cut text).1 ++ p)))) [
        | inl big ↦
            let stuck =
              ap (receive_all parse_json ps) (receive-overflow text p r h (ground arith))
              ∙ overflow_stays ps (deliver parse_json (cut text).0) in
            absurd (overflow≢reading (sym stuck ∙ e))
        | inr fits ↦
            subst (λ t. HasRead t (reading sent rest)) (append_assoc text p (join ps))
              (receive_all-HasRead ps (text ++ p) (receive parse_json p r) sent rest
                (receive-HasRead text p r h (ground arith)) e)
      ]

  -- Where the buffer does not overflow, the messages that have been delivered are those of the
  -- complete lines of the whole text, and what follows its last newline is kept, however the text
  -- was cut into pieces.
  pub messages_of_pieces :
      (ps : List Units) (sent : List (Message V)) (rest : Units)
      → receive_all parse_json ps (reading [] []) ≡ reading sent rest
      → (sent ≡ deliver parse_json (cut (join ps)).0) × (rest ≡ (cut (join ps)).1)
  messages_of_pieces ps sent rest e =
      let h = receive_all-HasRead ps [] (reading [] []) sent rest (unfold deliver cut in refl) e in
      (ap sent_of h, ap buffer_of h)

  read_whole :
      (ps : List Units) (text : Units) (r : Reader V)
      → HasRead text r
      → length text + length (join ps) ≤ max_buffer
      → HasRead (text ++ join ps) (receive_all parse_json ps r)
  unfolding receive_all
  read_whole [] text r h fits = subst (λ t. HasRead t r) (sym (append-nil text)) h
  read_whole (p ∷ ps) text r h fits =
      subst (λ t. HasRead t (receive_all parse_json ps (receive parse_json p r)))
        (append_assoc text p (join ps))
        (read_whole ps (text ++ p) (receive parse_json p r)
          (receive-HasRead text p r h (
            omega
              (arith, length-append (cut text).1 p, length-cut text, length-append p (join ps))))
          (omega (arith, length-append text p, length-append p (join ps))))

  -- A text of at most 1,048,576 units is read to its end.
  pub short_text_is_read :
      (ps : List Units)
      → length (join ps) ≤ max_buffer
      → receive_all parse_json ps (reading [] [])
        ≡ reading (deliver parse_json (cut (join ps)).0) (cut (join ps)).1
  short_text_is_read ps h =
      read_whole ps [] (reading [] []) (unfold deliver cut in refl) (omega arith)
