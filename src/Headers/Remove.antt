-- ===== src/Headers/Remove.antt =====
-- What RemoveHeader (http/http_headers.h) does, on every list of headers.
use cpp_base.Bytes.{Bytes, bytes_eq}
use cpp_base.Prelude.{
  ℕ, suc, ◌+◌, ◌-◌, ◌*◌, ◌≤◌, ◌<◌, ◌≡◌, refl, true, false, some, List, [], ◌∷◌, length, Outcome, ok,
  undefined, if◌then◌else◌, arith, ap, Bool-cases, inl, inr, ◌∙◌,
}
use cpp_base.Headers.{Header, erase_at, remove_loop, remove_header, header_exists}
use cpp_base.Headers.Loop.{without_name, count_name, loop_hit, loop_miss, loop_from_second}

count_name-le : (l : List Header) (name : Bytes) → count_name l name ≤ length l
unfolding count_name
count_name-le [] name = omega arith
count_name-le (h ∷ l) name = ground (arith, count_name-le l name)

square_fuel : (n c : ℕ) → c ≤ n → n + c * n + 1 < (n + 2) * (n + 2)
square_fuel n c h = grind arith

square_mono : (m n : ℕ) → m ≤ n → (m + 2) * (m + 2) ≤ (n + 2) * (n + 2)
square_mono m n h = grind arith

enough :
    (name : Bytes) (l : List Header) (fuel n : ℕ)
    → length l ≤ n
    → suc fuel ≡ (n + 2) * (n + 2)
    → length l + count_name l name * length l < fuel
enough name l fuel n h e = omega (
  arith,
  square_fuel (length l) (count_name l name) (count_name-le l name),
  square_mono (length l) n h,
)

-- The result in closed form.
unfoldable pub removed : List Header → Bytes → Outcome (List Header)
unfolding bytes_eq without_name
removed [] name = ok []
removed (h ∷ []) name = if bytes_eq h.name name then undefined else ok (h ∷ [])
removed (h ∷ g ∷ l) name =
    if bytes_eq h.name name
    then ok (g ∷ without_name l name)
    else ok (h ∷ without_name (g ∷ l) name)

past_end : (fuel : ℕ) (name : Bytes) → remove_loop (suc fuel) name 1 [] ≡ some undefined
unfolding remove_loop
past_end fuel name = refl

kept_first :
    (fuel : ℕ) (name : Bytes) (h : Header) (l : List Header)
    → suc (suc fuel) ≡ (length l + 2) * (length l + 2)
    → bytes_eq h.name name ≡ false
    → remove_loop (suc (suc fuel)) name 0 (h ∷ l) ≡ some (ok (h ∷ without_name l name))
kept_first fuel name h l f e =
    loop_miss (suc fuel) name 0 (h ∷ l) h refl e
    ∙ ap (λ i. remove_loop (suc fuel) name i (h ∷ l)) {x = 0 + 1} {y = 1} (omega arith)
    ∙ loop_from_second (suc fuel) name h [] l tt
        (enough name l (suc fuel) (length l) (omega arith) f)

removed-loop :
    (fuel : ℕ) (name : Bytes) (h : Header) (l : List Header)
    → suc (suc fuel) ≡ (length l + 2) * (length l + 2)
    → remove_loop (suc (suc fuel)) name 0 (h ∷ l) ≡ some (removed (h ∷ l) name)
unfolding removed erase_at
removed-loop fuel name h [] f = elim (Bool-cases (bytes_eq h.name name)) [
  | inr e ↦ rw (e, removed) (kept_first fuel name h [] f e)
  | inl e ↦ rw (e, removed) (loop_hit (suc fuel) name 0 (h ∷ []) h refl e ∙ past_end fuel name)
]
removed-loop fuel name h (g ∷ l) f = elim (Bool-cases (bytes_eq h.name name)) [
  | inr e ↦ rw (e, removed) (kept_first fuel name h (g ∷ l) f e)
  | inl e ↦
      rw (e, removed)
        (loop_hit (suc fuel) name 0 (h ∷ g ∷ l) h refl e
          ∙ loop_from_second (suc fuel) name g [] l tt
              (enough name l (suc fuel) (length (g ∷ l)) (omega arith) f))
]

-- RemoveHeader ends, and its result is told by the first header. If that has another name, it stays
-- and every header of the name goes. If it has the name, it goes, the header behind it stays
-- whatever its name is, and the others of the name go; where there is none behind it, the loop runs
-- past the end of the vector, which is undefined.
pub remove_header_lem :
    (headers : List Header) (name : Bytes)
    → remove_header headers name ≡ some (removed headers name)
unfolding remove_header removed remove_loop
remove_header_lem [] name = refl
remove_header_lem (h ∷ l) name =
    let n = (length l + 2) * (length l + 2) in
    ap (λ (k : ℕ). remove_loop k name 0 (h ∷ l)) {x = (suc (length l) + 1) * (suc (length l) + 1)}
      {y = suc (suc (n - 2))} (grind arith)
    ∙ removed-loop (n - 2) name h l (grind arith)

-- Where the first two headers have the name, RemoveHeader leaves one of them.
pub remove_header_keeps :
    (h g : Header) (l : List Header) (name : Bytes)
    → bytes_eq h.name name ≡ true
    → bytes_eq g.name name ≡ true
    → (rest : List Header) × (remove_header (h ∷ g ∷ l) name ≡ some (ok rest))
      × (header_exists rest name ≡ true)
unfolding removed header_exists
remove_header_keeps h g l name e f =
    (g ∷ without_name l name, remove_header_lem (h ∷ g ∷ l) name ∙ rw (e, removed), rw f)

exists_without_name :
    (l : List Header) (name : Bytes) → header_exists (without_name l name) name ≡ false
unfolding header_exists without_name
exists_without_name [] name = refl
exists_without_name (h ∷ l) name = ground (arith, exists_without_name l name)

removed_other :
    (h : Header) (l : List Header) (name : Bytes)
    → bytes_eq h.name name ≡ false
    → removed (h ∷ l) name ≡ ok (h ∷ without_name l name)
unfolding removed
removed_other h [] name e = rw e
removed_other h (g ∷ l) name e = rw e

-- Where the first header has another name, no header of the name is left.
pub remove_header_removes :
    (h : Header) (l : List Header) (name : Bytes)
    → bytes_eq h.name name ≡ false
    → (rest : List Header) × (remove_header (h ∷ l) name ≡ some (ok rest))
      × (header_exists rest name ≡ false)
remove_header_removes h l name e = (
  h ∷ without_name l name,
  remove_header_lem (h ∷ l) name ∙ ap some (removed_other h l name e),
  unfold header_exists in rw e (exists_without_name l name),
)
