-- ===== src/Db/Rows.antt =====
-- Laws of the row operations in Tables, and of `retain` and `any`.
use didicafe.Base.{
  ◌+◌, ◌≤◌, ◌≡◌, refl, Bool, true, false, ◌||◌, List, [], ◌∷◌, ◌++◌, if◌then◌else◌, retain, any,
  All, arith,
}
use didicafe.Db.Tables.{update_where, count_where}

module _ {ℓ} {A : Type ℓ} where
  pub All-map {κ μ} :
      {P : A → Type κ} {Q : A → Type μ} (xs : List A) → ((x : A) → P x → Q x) → All P xs → All Q xs
  All-map [] f h = tt
  All-map (x ∷ xs) f h = (f x h.0, All-map xs f h.1)

  pub All-update {κ} :
      (P : A → Type κ) (p : A → Bool) (f : A → A) (xs : List A)
      → ((x : A) → P x → P (f x))
      → All P xs
      → All P (update_where p f xs)
  All-update P p f [] g h = tt
  All-update P p f (x ∷ xs) g h = (go (p x), All-update P p f xs g h.1)
    where
      go : (b : Bool) → P (if b then f x else x)
      go true = g x h.0
      go false = h.0

  pub All-retain {κ} :
      (P : A → Type κ) (p : A → Bool) (xs : List A) → All P xs → All P (retain p xs)
  All-retain P p [] h = tt
  All-retain P p (x ∷ xs) h = go (p x) (All-retain P p xs h.1)
    where
      go : (b : Bool) → All P (retain p xs) → All P (if b then x ∷ retain p xs else retain p xs)
      go true rest = (h.0, rest)
      go false rest = rest

  pub All-append {κ} : (P : A → Type κ) (xs ys : List A) → All P xs → All P ys → All P (xs ++ ys)
  All-append P [] ys h k = k
  All-append P (x ∷ xs) ys h k = (h.0, All-append P xs ys h.1 k)

  pub count-append :
      (p : A → Bool) (xs ys : List A)
      → count_where p (xs ++ ys) ≡ count_where p xs + count_where p ys
  count-append p [] ys = omega arith
  count-append p (x ∷ xs) ys = omega (arith, count-append p xs ys)

  pub count-retain-le :
      (p q : A → Bool) (xs : List A) → count_where p (retain q xs) ≤ count_where p xs
  count-retain-le p q [] = omega arith
  count-retain-le p q (x ∷ xs) = ground (arith, count-retain-le p q xs)

  -- An update that makes no row satisfy `p` anew.
  pub count-update-le :
      (p q : A → Bool) (f : A → A) (xs : List A)
      → ((x : A) → p (f x) ≡ true → p x ≡ true)
      → count_where p (update_where q f xs) ≤ count_where p xs
  count-update-le p q f [] h = omega arith
  count-update-le p q f (x ∷ xs) h = ground (arith, h x, count-update-le p q f xs h)

  pub count-update_same :
      (p q : A → Bool) (f : A → A) (xs : List A)
      → ((x : A) → q x ≡ true → p (f x) ≡ p x)
      → count_where p (update_where q f xs) ≡ count_where p xs
  count-update_same p q f [] h = refl
  count-update_same p q f (x ∷ xs) h = ground (arith, h x, count-update_same p q f xs h)

  -- An update of exactly the rows that satisfy `p`, which satisfy it no longer.
  pub count-update_none :
      (p : A → Bool) (f : A → A) (xs : List A)
      → ((x : A) → p (f x) ≡ false)
      → count_where p (update_where p f xs) ≡ 0
  count-update_none p f [] h = refl
  count-update_none p f (x ∷ xs) h = ground (arith, h x, count-update_none p f xs h)

  pub any-update :
      (q p : A → Bool) (f : A → A) (xs : List A)
      → ((x : A) → q (f x) ≡ q x)
      → any q (update_where p f xs) ≡ any q xs
  any-update q p f [] h = refl
  any-update q p f (x ∷ xs) h = ground (arith, h x, any-update q p f xs h)

  pub any-append : (q : A → Bool) (xs ys : List A) → any q (xs ++ ys) ≡ (any q xs || any q ys)
  any-append q [] ys = refl
  any-append q (x ∷ xs) ys = ground (arith, any-append q xs ys)

  -- A filter that keeps every row satisfying `q`.
  pub any-retain :
      (q p : A → Bool) (xs : List A)
      → ((x : A) → q x ≡ true → p x ≡ true)
      → any q (retain p xs) ≡ any q xs
  any-retain q p [] h = refl
  any-retain q p (x ∷ xs) h = ground (arith, h x, any-retain q p xs h)

  pub retain-update :
      (p q : A → Bool) (f : A → A) (xs : List A)
      → ((x : A) → q x ≡ true → p (f x) ≡ false)
      → ((x : A) → q x ≡ true → p x ≡ false)
      → retain p (update_where q f xs) ≡ retain p xs
  retain-update p q f [] h k = refl
  retain-update p q f (x ∷ xs) h k = ground (arith, h x, k x, retain-update p q f xs h k)
