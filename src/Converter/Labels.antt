-- ===== src/Converter/Labels.antt =====
-- How `CEnumConverter` names a value.
use epics_tcl.Prelude.{
  List, [], ◌∷◌, ◌≤◌, true, false, is_empty, ltb, get_or, ◌==◌, print_nat, ℕ, zero, suc, ◌+◌, ◌<◌,
  ◌≡◌, refl, ap, ◌∙◌, String, some, length, get_elem?, arith,
}
use native.Mathlib.Nat.{add-zero, zero-add}
use epics_tcl.Prelude.Int.{pos}
use epics_tcl.Ca.{GrEnum}
use epics_tcl.Converter.Loop.{collect, length-collect}
use epics_tcl.Converter.EnumConverter.{labels, learn, text_of, convert, collect_enums}

get_elem?-collect :
    (f : ℕ → String) (n i j : ℕ) → j < n → get_elem? (collect f n i) j ≡ some (f (i + j))
unfolding collect
get_elem?-collect f zero i j h = absurd (omega arith)
get_elem?-collect f (suc n) i zero h = rw (add-zero i)
get_elem?-collect f (suc n) i (suc j) h =
    rw (get_elem?-collect f n (i + 1) j (omega arith)) (ap (λ k. some (f k)) (omega arith))

labels_lem : (n : ℕ) (e : GrEnum) → e.no_str ≡ pos n → labels e ≡ collect e.strs n 0
unfolding labels
labels_lem n e h = rw (h, labels)

pub labels-get :
    (n : ℕ) (e : GrEnum)
    → e.no_str ≡ pos n
    → (length (labels e) ≡ n) × ((i : ℕ) → i < n → get_elem? (labels e) i ≡ some (e.strs i))
labels-get n e h = (
  ap length (labels_lem n e h) ∙ length-collect e.strs n 0,
  λ i b.
      ap (λ l. get_elem? l i) (labels_lem n e h)
      ∙ get_elem?-collect e.strs n 0 i b
      ∙ ap (λ k. some (e.strs k)) (zero-add i),
)

get_or-get_elem? :
    (l : List String) (i : ℕ) (s : String) → get_elem? l i ≡ some s → get_or l i "" ≡ s
get_or-get_elem? [] i s h = absurd cc
get_or-get_elem? (x ∷ l) zero s h = ground (arith, h)
get_or-get_elem? (x ∷ l) (suc i) s h = get_or-get_elem? l i s h

-- A value that has a label which is not empty is named by it, one beyond the labels by its number.
pub text_of_lem :
    (l : List String) (v : ℕ) (s : String)
    → ((v < length l) → get_elem? l v ≡ some s → (s == "") ≡ false → text_of l v ≡ s)
      × (length l ≤ v → text_of l v ≡ print_nat v)
unfolding text_of
text_of_lem l v s = (
  (λ b h some_text.
      let label : get_or l v "" ≡ s = get_or-get_elem? l v s h in
      let small : ltb v (length l) ≡ true = ground (arith, b) in rw (label, small, some_text) refl),
  (λ b. let large : ltb v (length l) ≡ false = ground (arith, b) in rw large refl),
)

-- Labels that are there already stay as they are.
pub convert-keeps :
    (l : List String) (e : GrEnum) → is_empty l ≡ false → convert l e ≡ (l, text_of l e.value)
unfolding convert learn
convert-keeps l e h = rw h refl

pub collect_enums-keeps :
    (l : List String) (items : ℕ → GrEnum) (n i : ℕ)
    → is_empty l ≡ false
    → (collect_enums l items n i).0 ≡ l
unfolding collect_enums
collect_enums-keeps l items zero i h = refl
collect_enums-keeps l items (suc n) i h = rw h (collect_enums-keeps l items n (i + 1) h)

pub convert-learns : (e : GrEnum) → (convert [] e).0 ≡ labels e
unfolding convert learn
convert-learns e = refl
