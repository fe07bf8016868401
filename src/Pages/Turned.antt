-- ===== src/Pages/Turned.antt =====
-- src/web/admin.rs, src/db/models.rs: a list by pages, from the first to the last.
use didicafe.Base.{
  ℕ, zero, suc, ◌+◌, ◌-◌, ◌*◌, ◌≤◌, ◌≡◌, refl, ap, sym, ◌∙◌, some, List, [], ◌∷◌, ◌++◌, take, drop,
  length, arith,
}
use didicafe.Base.Int.{pos}
use didicafe.Db.Models.{total_pages}
use didicafe.Web.Input.{page_number}

-- The pages from the first on, one after the other.
abbrev pub pages_upto {ℓ} : {A : Type ℓ} → (ℕ → List A) → ℕ → List A
pages_upto page zero = []
pages_upto page (suc n) = pages_upto page n ++ page (suc n)

module _ {ℓ} {A : Type ℓ} where
  append_nil : (xs : List A) → xs ++ [] ≡ xs
  append_nil [] = refl
  append_nil (x ∷ xs) = ap (◌∷◌ x) (append_nil xs)

  take_nil : (n : ℕ) → take {A = A} n [] ≡ []
  take_nil zero = refl
  take_nil (suc n) = refl

  take-add : (m n : ℕ) (xs : List A) → take (m + n) xs ≡ take m xs ++ take n (drop m xs)
  take-add zero n xs = ap (λ k. take k xs) (let e : 0 + n ≡ n = omega arith in e)
  take-add (suc m) n [] = take_nil (suc m + n) ∙ sym (take_nil n)
  take-add (suc m) n (x ∷ xs) =
      ap (λ k. take k (x ∷ xs)) (let e : suc m + n ≡ suc (m + n) = omega arith in e)
      ∙ ap (◌∷◌ x) (take-add m n xs)

  take_all : (n : ℕ) (xs : List A) → length xs ≤ n → take n xs ≡ xs
  take_all zero [] h = refl
  take_all zero (x ∷ xs) h = absurd (omega arith)
  take_all (suc n) [] h = refl
  take_all (suc n) (x ∷ xs) h = ap (◌∷◌ x) (take_all n xs (omega arith))

  pages_upto-take :
      (per n : ℕ) (xs : List A)
      → pages_upto (λ i. take per (drop ((i - 1) * per) xs)) n ≡ take (n * per) xs
  pages_upto-take per zero xs = ap (λ k. take k xs) (let e : 0 ≡ 0 * per = omega arith in e)
  pages_upto-take per (suc n) xs =
      ap (λ front. front ++ take per (drop ((suc n - 1) * per) xs)) (pages_upto-take per n xs)
      ∙ ap (λ k. take (n * per) xs ++ take per (drop (k * per) xs))
          (let e : suc n - 1 ≡ n = omega arith in e)
      ∙ sym (take-add (n * per) per xs)
      ∙ ap (λ k. take k xs) (let e : n * per + per ≡ suc n * per = grind arith in e)

  -- A list by pages of fifty.
  pub pages-fifty :
      (xs : List A)
      → pages_upto (λ i. take 50 (drop ((i - 1) * 50) xs)) (total_pages (length xs) 50) ≡ xs
  pages-fifty xs =
      pages_upto-take 50 (total_pages (length xs) 50) xs
      ∙ take_all (total_pages (length xs) 50 * 50) xs (omega arith)

pub pages_upto_same :
    {A : Type 0} (f g : ℕ → List A) (n : ℕ)
    → ((k : ℕ) → f (suc k) ≡ g (suc k))
    → pages_upto f n ≡ pages_upto g n
pages_upto_same f g zero h = refl
pages_upto_same f g (suc n) h = ground (arith, pages_upto_same f g n h, h n)

pub page_number-pos : (k : ℕ) → page_number (some (pos (suc k))) ≡ suc k
page_number-pos k = ground arith
