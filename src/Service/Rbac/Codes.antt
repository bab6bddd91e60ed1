-- ===== src/Service/Rbac/Codes.antt =====
-- The loop of `AssignRolesToUser` over the role codes: it trims them and drops repetitions.
use go_user_system.Common.{
  String, Bool, true, ◌&&◌, not, any, List, [], ◌∷◌, str_eq, eq_iff, ◌≡◌, refl, arith, Bool-cases,
  inl, inr,
}
use go_user_system.Common.Text.{trim_space, is_empty}
use go_user_system.Result.{ok, Result-cases}
use go_user_system.Service.Rbac.{normalize}

-- No text comes twice.
unfoldable pub has_no_repeats : List String → Bool
has_no_repeats [] = true
has_no_repeats (x ∷ xs) = not (any (str_eq x) xs) && has_no_repeats xs

-- The codes of the result are those of the list, trimmed, that were not seen before.
normalize-members :
    (seen codes out : List String) (c : String)
    → normalize seen codes ≡ ok out
    → any (str_eq c) out
      ≡ (any (λ given. str_eq c (trim_space given)) codes && not (any (str_eq c) seen))
unfolding normalize
normalize-members seen [] out c h = (let shape : out ≡ [] = cc in rw shape refl)
normalize-members seen (given ∷ more) out c h =
    let code = trim_space given in
    elim (Bool-cases (is_empty code)) [
      | inl blank ↦ absurd (let k = rw blank at h in cc)
      | inr full ↦ elim (Bool-cases (any (str_eq code) seen)) [
        | inl again ↦
            let k = normalize-members seen more out c (rw (full, again) at h) in
            ground (arith, eq_iff c code)
        | inr fresh ↦ elim (Result-cases (normalize (code ∷ seen) more)) [
          | inr (e, bad) ↦ absurd (let k = rw (full, fresh, bad) at h in cc)
          | inl (rest, made) ↦
              let k = normalize-members (code ∷ seen) more rest c made in
              let shape : out ≡ code ∷ rest = (let g = rw (full, fresh, made) at h in cc) in
              rw shape (ground (arith, eq_iff c code))
        ]
      ]
    ]

normalize-has_no_repeats :
    (seen codes out : List String) → normalize seen codes ≡ ok out → has_no_repeats out ≡ true
unfolding normalize has_no_repeats
normalize-has_no_repeats seen [] out h = (let shape : out ≡ [] = cc in rw shape refl)
normalize-has_no_repeats seen (given ∷ more) out h =
    let code = trim_space given in
    elim (Bool-cases (is_empty code)) [
      | inl blank ↦ absurd (let k = rw blank at h in cc)
      | inr full ↦ elim (Bool-cases (any (str_eq code) seen)) [
        | inl again ↦ normalize-has_no_repeats seen more out (rw (full, again) at h)
        | inr fresh ↦ elim (Result-cases (normalize (code ∷ seen) more)) [
          | inr (e, bad) ↦ absurd (let k = rw (full, fresh, bad) at h in cc)
          | inl (rest, made) ↦
              let k = normalize-members (code ∷ seen) more rest code made in
              let l = normalize-has_no_repeats (code ∷ seen) more rest made in
              let shape : out ≡ code ∷ rest = (let g = rw (full, fresh, made) at h in cc) in
              rw shape (ground (arith, eq_iff code code))
        ]
      ]
    ]

-- If the loop ends without an error, then no code comes twice in its result, and a code is in the
-- result exactly if it is in the list, spaces around it aside.
pub normalize_lem :
    (codes out : List String) (c : String)
    → normalize [] codes ≡ ok out
    → (has_no_repeats out ≡ true)
      × (any (str_eq c) out ≡ any (λ given. str_eq c (trim_space given)) codes)
normalize_lem codes out c h =
    let k = normalize-members [] codes out c h in
    (normalize-has_no_repeats [] codes out h, ground arith)
