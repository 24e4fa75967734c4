-- ===== src/Prelude/Pages.antt =====
-- `LIMIT` and `OFFSET` as the services set them.
use Prim.Native.Nat.{ℕ, zero, suc, ◌+◌, ◌-◌, ◌*◌, ◌≤◌}
use mathlib.Core.Path.{◌≡◌, refl, ap, sym, ◌∙◌}
use mathlib.Core.List.{List, [], ◌∷◌, ◌++◌}
use native.Mathlib.Omega.{arith}
use rems.Prelude.Lists.{drop, length}
use rems.Prelude.Int.{ℤ, pos, negsuc}

abbrev pub take {ℓ} : {A : Type ℓ} → ℕ → List A → List A
take zero xs = []
take (suc n) [] = []
take (suc n) (x ∷ xs) = x ∷ take n xs

-- A number that is not positive is replaced.
abbrev pub page_or_default : ℕ → ℤ → ℕ
page_or_default default (pos zero) = default
page_or_default default (pos (suc n)) = suc n
page_or_default default (negsuc n) = default

-- `Limit(pageSize).Offset((page - 1) * pageSize)`, after the defaults.
unfoldable pub page_of {ℓ} : {A : Type ℓ} → ℕ → ℤ → ℤ → List A → List A
page_of default page page_size xs =
    take (page_or_default default page_size)
      (drop ((page_or_default 1 page - 1) * page_or_default default page_size) xs)

-- The first pages, one after the other.
abbrev pub pages {ℓ} : {A : Type ℓ} → ℕ → ℕ → ℤ → List A → List A
pages zero default page_size xs = []
pages (suc n) default page_size xs =
    pages n default page_size xs ++ page_of default (pos (suc n)) page_size xs

take-nil {ℓ} : {A : Type ℓ} (n : ℕ) → take {A = A} n [] ≡ []
take-nil zero = refl
take-nil (suc n) = refl

take-drop {ℓ} :
    {A : Type ℓ} (m n k : ℕ) (xs : List A) → m + n ≡ k → take m xs ++ take n (drop m xs) ≡ take k xs
take-drop zero n k xs e = let e' : n ≡ k = omega arith in ap (λ j. take j xs) e'
take-drop (suc m) n k [] e = take-nil n ∙ sym (take-nil k)
take-drop (suc m) n zero (x ∷ xs) e = absurd (omega arith)
take-drop (suc m) n (suc k) (x ∷ xs) e = ap (λ ys. x ∷ ys) (take-drop m n k xs (omega arith))

take-all {ℓ} : {A : Type ℓ} (n : ℕ) (xs : List A) → length xs ≤ n → take n xs ≡ xs
take-all n [] h = take-nil n
take-all zero (x ∷ xs) h = absurd (omega arith)
take-all (suc n) (x ∷ xs) h = ap (λ ys. x ∷ ys) (take-all n xs (omega arith))

pages-take {ℓ} :
    {A : Type ℓ} (n k default : ℕ) (page_size : ℤ) (xs : List A)
    → n * page_or_default default page_size ≡ k
    → pages n default page_size xs ≡ take k xs
unfolding page_of
pages-take zero k default page_size xs e =
    let e' : k ≡ 0 = omega arith in sym (ap (λ j. take j xs) e')
pages-take (suc n) k default page_size xs e =
    let size = page_or_default default page_size in
    let sum : n * size + size ≡ k = omega arith in
    let back : suc n - 1 ≡ n = omega arith in
    ap (λ j. pages n default page_size xs ++ take size (drop (j * size) xs)) back
    ∙ ap (λ ys. ys ++ take size (drop (n * size) xs))
        (pages-take n (n * size) default page_size xs refl)
    ∙ take-drop (n * size) size k xs sum

-- As many pages as hold the list are the list, each entry once and in its order.
pub pages-eq :
    {A : Type 0} (n default : ℕ) (page_size : ℤ) (xs : List A)
    → length xs ≤ n * page_or_default default page_size
    → pages n default page_size xs ≡ xs
pages-eq n default page_size xs h =
    pages-take n (n * page_or_default default page_size) default page_size xs refl
    ∙ take-all (n * page_or_default default page_size) xs h
