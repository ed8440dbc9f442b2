-- ===== src/Cutover/Lines.antt =====
-- The writer that splits a script's output into lines (`lineWriter` of
-- internal/service/cutover.go). How the output is cut into writes does not matter.
use mathlib.Core.List.{append_assoc, append-nil}
use touchgrass.Base.{
  ℕ, zero, suc, ◌<◌, ◌≡◌, refl, inl, inr, false, ◌==◌, if◌then◌else◌, Text, is_empty, Option, none,
  some, List, [], ◌∷◌, ◌++◌, length, arith, Bool-cases, Option-cases,
}

-- The writer, with what it has handed to `emit`.
pub record LineWriter : Type 0 where
  pub emitted : List Text
  pub buf : Text

abbrev pub new_writer : LineWriter
new_writer = record { emitted = []; buf = [] }

-- `bytes.IndexByte(w.buf, '\n')`, with the slices before and after it.
unfoldable pub cut_line : Text → Option (Text × Text)
cut_line [] = none
cut_line (c ∷ s) =
    let rest = cut_line s in
    if c == 10 then some ([], s) else elim rest [ none ↦ none | some (l, r) ↦ some (c ∷ l, r) ]

-- The loop of `Write`, with fuel.
unfoldable pub drain : ℕ → LineWriter → LineWriter
drain zero w = w
drain (suc fuel) w = elim (cut_line w.buf) [
  | none ↦ w
  | some (l, rest) ↦ drain fuel (record { emitted = w.emitted ++ l ∷ []; buf = rest })
]

-- `Write`: each round takes at least one byte off the buffer.
unfoldable pub write : Text → LineWriter → LineWriter
write chunk w = drain (suc (length (w.buf ++ chunk))) (record w { buf = w.buf ++ chunk })

-- `flush`
unfoldable pub flush : LineWriter → LineWriter
unfolding is_empty
flush w = if is_empty w.buf then w else record { emitted = w.emitted ++ w.buf ∷ []; buf = [] }

-- What `runScript` emits for an output that arrives in chunks.
unfoldable pub write_all : List Text → LineWriter → LineWriter
write_all [] w = w
write_all (chunk ∷ rest) w = write_all rest (write chunk w)

-- The lines of a text, after a line that has begun with `acc`, and what the last of them leaves.
unfoldable pub full_lines : Text → Text → List Text
full_lines acc [] = []
full_lines acc (c ∷ s) = if c == 10 then acc ∷ full_lines [] s else full_lines (acc ++ c ∷ []) s

unfoldable pub remainder : Text → Text → Text
remainder acc [] = acc
remainder acc (c ∷ s) = if c == 10 then remainder [] s else remainder (acc ++ c ∷ []) s

-- The lines of a whole text: an unfinished last line counts, an empty one does not.
unfoldable pub lines_of : Text → List Text
unfolding is_empty
lines_of t =
    let rest = remainder [] t in full_lines [] t ++ (if is_empty rest then [] else rest ∷ [])

abbrev pub concat : List Text → Text
concat [] = []
concat (t ∷ ts) = t ++ concat ts

cut_line-none :
    (t acc : Text) → cut_line t ≡ none → (full_lines acc t ≡ []) × (remainder acc t ≡ acc ++ t)
unfolding cut_line full_lines remainder
cut_line-none [] acc e = (refl, ground (arith, append-nil acc))
cut_line-none (c ∷ s) acc e = elim (Bool-cases (c == 10)) [
  | inl stop ↦ ground arith
  | inr go ↦ elim (Option-cases (cut_line s)) [
    | inl f ↦ ground (arith, cut_line-none s (acc ++ c ∷ []) f, append_assoc acc (c ∷ []) s)
    | inr ((l, r), f) ↦ ground arith
  ]
]

cut_line-some :
    (t acc l r : Text)
    → cut_line t ≡ some (l, r)
    → (full_lines acc t ≡ (acc ++ l) ∷ full_lines [] r)
      × (remainder acc t ≡ remainder [] r)
      × (length r < length t)
unfolding cut_line full_lines remainder
cut_line-some [] acc l r e = ground arith
cut_line-some (c ∷ s) acc l r e = elim (Bool-cases (c == 10)) [
  | inl stop ↦ ground (arith, append-nil acc)
  | inr go ↦ elim (Option-cases (cut_line s)) [
    | inl f ↦ ground arith
    | inr ((k, q), f) ↦
        ground (arith, cut_line-some s (acc ++ c ∷ []) k q f, append_assoc acc (c ∷ []) k)
  ]
]

-- With more fuel than the buffer has bytes the loop ends by its test: every full line is out.
drain_lem :
    (fuel : ℕ) (w : LineWriter)
    → length w.buf < fuel
    → drain fuel w ≡ record { emitted = w.emitted ++ full_lines [] w.buf; buf = remainder [] w.buf }
unfolding drain
drain_lem zero w h = ground arith
drain_lem (suc fuel) w h = elim (Option-cases (cut_line w.buf)) [
  | inl e ↦ ground (arith, cut_line-none w.buf [] e, append-nil w.emitted)
  | inr ((l, r), e) ↦
      let next : LineWriter = record { emitted = w.emitted ++ l ∷ []; buf = r } in
      ground (
        arith,
        cut_line-some w.buf [] l r e,
        drain_lem fuel next,
        append_assoc w.emitted (l ∷ []) (full_lines [] r),
      )
]

full_lines-append :
    (a b acc : Text) → full_lines acc (a ++ b) ≡ full_lines acc a ++ full_lines (remainder acc a) b
unfolding full_lines remainder
full_lines-append [] b acc = refl
full_lines-append (c ∷ s) b acc =
    ground (arith, full_lines-append s b [], full_lines-append s b (acc ++ c ∷ []))

remainder-append : (a b acc : Text) → remainder acc (a ++ b) ≡ remainder (remainder acc a) b
unfolding remainder
remainder-append [] b acc = refl
remainder-append (c ∷ s) b acc =
    ground (arith, remainder-append s b [], remainder-append s b (acc ++ c ∷ []))

-- The buffer holds no newline: read again, it is its own remainder.
abbrev IsPartial : Text → Type 0
IsPartial t = (full_lines [] t ≡ []) × (remainder [] t ≡ t)

IsPartial-grow :
    (acc : Text) (c : ℕ) → (c == 10) ≡ false → IsPartial acc → IsPartial (acc ++ c ∷ [])
IsPartial-grow acc c h p =
    unfold full_lines remainder in
    ground (arith, full_lines-append acc (c ∷ []) [], remainder-append acc (c ∷ []) [])

remainder-IsPartial : (t acc : Text) → IsPartial acc → IsPartial (remainder acc t)
unfolding remainder
remainder-IsPartial [] acc p = p
remainder-IsPartial (c ∷ s) acc p = elim (Bool-cases (c == 10)) [
  | inl stop ↦ rw stop (remainder-IsPartial s [] (unfold full_lines in (refl, refl)))
  | inr go ↦ rw go (remainder-IsPartial s (acc ++ c ∷ []) (IsPartial-grow acc c go p))
]

write_lem :
    (chunk : Text) (w : LineWriter)
    → IsPartial w.buf
    → write chunk w
      ≡ record { emitted = w.emitted ++ full_lines w.buf chunk; buf = remainder w.buf chunk }
unfolding write
write_lem chunk w p = ground (
  arith,
  drain_lem (suc (length (w.buf ++ chunk))) (record w { buf = w.buf ++ chunk }),
  full_lines-append w.buf chunk [],
  remainder-append w.buf chunk [],
)

write_all_lem :
    (chunks : List Text) (w : LineWriter)
    → IsPartial w.buf
    → write_all chunks w ≡ record {
      emitted = w.emitted ++ full_lines w.buf (concat chunks);
      buf = remainder w.buf (concat chunks);
    }
unfolding write_all
write_all_lem [] w p = unfold full_lines remainder in ground (arith, append-nil w.emitted)
write_all_lem (chunk ∷ rest) w p =
    let moved : LineWriter = record {
      emitted = w.emitted ++ full_lines w.buf chunk;
      buf = remainder w.buf chunk;
    } in
    rw (write_lem chunk w p) (
      ground (
        arith,
        write_all_lem rest moved (remainder-IsPartial chunk w.buf p),
        full_lines-append chunk (concat rest) w.buf,
        remainder-append chunk (concat rest) w.buf,
        append_assoc w.emitted (full_lines w.buf chunk)
            (full_lines (remainder w.buf chunk) (concat rest)),
      ))

flush_lem :
    (ls : List Text) (rest : Text)
    → flush (record { emitted = ls; buf = rest })
      ≡ record { emitted = ls ++ (if is_empty rest then [] else rest ∷ []); buf = [] }
unfolding flush is_empty
flush_lem ls [] = ground (arith, append-nil ls)
flush_lem ls (c ∷ s) = refl

-- However a script's output is cut into writes, what is emitted once it has ended are the lines of
-- the whole output, in order, and nothing is left in the buffer.
pub write_all-lines_of :
    (chunks : List Text)
    → flush (write_all chunks new_writer) ≡ record { emitted = lines_of (concat chunks); buf = [] }
unfolding lines_of
write_all-lines_of chunks =
    rw (write_all_lem chunks new_writer (unfold full_lines remainder in (refl, refl)))
      (flush_lem (full_lines [] (concat chunks)) (remainder [] (concat chunks)))
