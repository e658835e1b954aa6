-- ===== src/Headers/Loop.antt =====
-- The loop of RemoveHeader (http/http_headers.h).
use mathlib.Core.Path.{ap₂}
use cpp_base.Bytes.{Bytes, bytes_eq}
use cpp_base.Prelude.{
  ℕ, zero, suc, ◌+◌, ◌*◌, ◌<◌, ◌≡◌, refl, true, false, some, List, [], ◌∷◌, ◌++◌, length, get_elem?,
  ok, ◌==◌, if◌then◌else◌, arith, All, length-append, ap, append_assoc, Bool-cases, inl, inr, sym,
  ◌∙◌, ==_iff,
}
use cpp_base.Headers.{Header, erase_at, remove_loop}

-- The headers without those of the name.
unfoldable pub without_name : List Header → Bytes → List Header
without_name [] name = []
without_name (h ∷ headers) name =
    let rest = without_name headers name in if bytes_eq h.name name then rest else h ∷ rest

unfoldable pub count_name : List Header → Bytes → ℕ
count_name [] name = 0
count_name (h ∷ headers) name =
    let rest = count_name headers name in if bytes_eq h.name name then suc rest else rest

-- No header has the name.
abbrev pub Lacks : Bytes → List Header → Type 0
Lacks name = All (λ h. bytes_eq h.name name ≡ false)

get_elem?-middle :
    (pre : List Header) (h : Header) (post : List Header)
    → get_elem? (pre ++ (h ∷ post)) (length pre) ≡ some h
get_elem?-middle [] h post = refl
get_elem?-middle (g ∷ pre) h post = get_elem?-middle pre h post

erase_at-middle :
    (pre : List Header) (h : Header) (post : List Header)
    → erase_at (pre ++ (h ∷ post)) (length pre) ≡ pre ++ post
unfolding erase_at
erase_at-middle [] h post = refl
erase_at-middle (g ∷ pre) h post = ap (◌∷◌ g) (erase_at-middle pre h post)

without_name-Lacks :
    (name : Bytes) (pre post : List Header)
    → Lacks name pre
    → without_name (pre ++ post) name ≡ pre ++ without_name post name
unfolding without_name
without_name-Lacks name [] post h = refl
without_name-Lacks name (g ∷ pre) post h =
    rw h.0 (ap (◌∷◌ g) (without_name-Lacks name pre post h.1))

count_name-Lacks :
    (name : Bytes) (pre post : List Header)
    → Lacks name pre
    → count_name (pre ++ post) name ≡ count_name post name
unfolding count_name
count_name-Lacks name [] post h = refl
count_name-Lacks name (g ∷ pre) post h = rw h.0 (count_name-Lacks name pre post h.1)

Lacks-snoc :
    (name : Bytes) (pre : List Header) (h : Header)
    → Lacks name pre
    → bytes_eq h.name name ≡ false
    → Lacks name (pre ++ (h ∷ []))
Lacks-snoc name [] h p e = (e, tt)
Lacks-snoc name (g ∷ pre) h p e = (p.0, Lacks-snoc name pre h p.1 e)

get_elem?-lt :
    (xs : List Header) (i : ℕ) (h : Header) → get_elem? xs i ≡ some h → (i == length xs) ≡ false
get_elem?-lt [] i h e = cc
get_elem?-lt (x ∷ xs) zero h e = ground arith
get_elem?-lt (x ∷ xs) (suc i) h e = ground (arith, get_elem?-lt xs i h e)

module _ (fuel : ℕ) (name : Bytes) (i : ℕ) (l : List Header) where
  loop_done : i ≡ length l → remove_loop (suc fuel) name i l ≡ some (ok l)
  unfolding remove_loop
  loop_done e = rw ((==_iff i (length l)).1 e, remove_loop)

  pub loop_hit :
      (h : Header)
      → get_elem? l i ≡ some h
      → bytes_eq h.name name ≡ true
      → remove_loop (suc fuel) name i l ≡ remove_loop fuel name 1 (erase_at l i)
  unfolding remove_loop
  loop_hit h e m = rw (get_elem?-lt l i h e, remove_loop) (rw e (rw m))

  pub loop_miss :
      (h : Header)
      → get_elem? l i ≡ some h
      → bytes_eq h.name name ≡ false
      → remove_loop (suc fuel) name i l ≡ remove_loop fuel name (i + 1) l
  unfolding remove_loop
  loop_miss h e m = rw (get_elem?-lt l i h e, remove_loop) (rw e (rw m))

without_name_hit :
    (name : Bytes) (h : Header) (l : List Header)
    → bytes_eq h.name name ≡ true
    → (without_name (h ∷ l) name ≡ without_name l name)
      × (count_name (h ∷ l) name ≡ suc (count_name l name))
unfolding without_name count_name
without_name_hit name h l e = (rw e, rw e)

without_name_miss :
    (name : Bytes) (h : Header) (l : List Header)
    → bytes_eq h.name name ≡ false
    → (without_name (h ∷ l) name ≡ h ∷ without_name l name)
      × (count_name (h ∷ l) name ≡ count_name l name)
unfolding without_name count_name
without_name_miss name h l e = (rw e, rw e)

-- The fuel that is left after an erasure is enough for the shorter list.
fuel_after_hit :
    (fuel post total count : ℕ)
    → suc post + suc count * suc total < suc fuel
    → total + count * total < fuel
fuel_after_hit fuel post total count f = grind arith

-- From the second header on the loop keeps the first and removes every other of the name.
pub loop_from_second :
    (fuel : ℕ) (name : Bytes) (first : Header) (pre post : List Header)
    → Lacks name pre
    → length post + count_name post name * length (pre ++ post) < fuel
    → remove_loop fuel name (suc (length pre)) (first ∷ (pre ++ post))
      ≡ some (ok (first ∷ (pre ++ without_name post name)))
loop_from_second zero name first pre post p f = absurd (omega arith)
loop_from_second (suc fuel) name first pre [] p f =
    loop_done fuel name (suc (length pre)) (first ∷ (pre ++ []))
      (omega (arith, length-append pre []))
    ∙ ap (λ l. some (ok (first ∷ (pre ++ l)))) (unfold without_name in refl)
loop_from_second (suc fuel) name first pre (h ∷ post) p f =
    elim (Bool-cases (bytes_eq h.name name)) [
      | inl e ↦
          let (gone, one) = without_name_hit name h post e in
          let product : count_name (h ∷ post) name * length (pre ++ (h ∷ post))
              ≡ suc (count_name (pre ++ post) name) * suc (length (pre ++ post)) =
            ap₂ (λ (a b : ℕ). a * b) (one ∙ ap suc (sym (count_name-Lacks name pre post p)))
              (omega (arith, length-append pre (h ∷ post), length-append pre post)) in
          loop_hit fuel name (suc (length pre)) (first ∷ (pre ++ (h ∷ post))) h
            (get_elem?-middle pre h post) e
          ∙ ap (remove_loop fuel name 1) (erase_at-middle (first ∷ pre) h post)
          ∙ loop_from_second fuel name first [] (pre ++ post) tt (
              fuel_after_hit fuel (length post) (length (pre ++ post))
                (count_name (pre ++ post) name) (omega (arith, f, product)))
          ∙ ap (λ l. some (ok (first ∷ l)))
              (without_name-Lacks name pre post p ∙ ap (λ l. pre ++ l) (sym gone))
      | inr e ↦
          let (kept, same) = without_name_miss name h post e in
          let product : count_name (h ∷ post) name * length (pre ++ (h ∷ post))
              ≡ count_name post name * length ((pre ++ (h ∷ [])) ++ post) =
            ap₂ (λ (a b : ℕ). a * b) same (ap length (sym (append_assoc pre (h ∷ []) post))) in
          loop_miss fuel name (suc (length pre)) (first ∷ (pre ++ (h ∷ post))) h
            (get_elem?-middle pre h post) e
          ∙ ap₂ (λ i l. remove_loop fuel name i (first ∷ l))
              (omega (arith, length-append pre (h ∷ []))) (sym (append_assoc pre (h ∷ []) post))
          ∙ loop_from_second fuel name first (pre ++ (h ∷ [])) post (Lacks-snoc name pre h p e)
              (omega (arith, f, product))
          ∙ ap (λ l. some (ok (first ∷ l)))
              (append_assoc pre (h ∷ []) (without_name post name) ∙ ap (λ l. pre ++ l) (sym kept))
    ]
