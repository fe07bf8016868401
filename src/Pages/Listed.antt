-- ===== src/Pages/Listed.antt =====
-- src/db/mod.rs: how many tokens the queries of the list count and give.
use didicafe.Base.{
  zero, ltb, ◌≤◌, ◌||◌, ◌&&◌, length-append, ℕ, suc, ◌≡◌, refl, ap, ◌∙◌, Bool, true, false, some,
  List, [], ◌∷◌, eqb, take, drop, length, retain, any, find, map, All, arith, Bool-cases, inl, inr,
}
use didicafe.Db.Models.{Plan, Token}
use didicafe.Db.Tables.{Database, TokenRow, count_where, join_rows, token_view}
use didicafe.Db.Rows.{All-retain}
use didicafe.Db.Integrity.{IsSound, has_plan}
use didicafe.Db.Tokens.{
  Filter, current, only_active, only_expired, everything, by_status, counts, matches, shown_status,
  insert_newest, newest_first, selected,
}
use didicafe.Pages.Turned.{pages_upto}

abbrev HasPlan : Database → TokenRow → Type 0
HasPlan db t = has_plan db.plans t.plan_id ≡ true

any-find :
    {A : Type 0} (p : A → Bool) (xs : List A) → any p xs ≡ true → (x : A) × (find p xs ≡ some x)
any-find p [] h = absurd (let e : false ≡ true = h in cc)
any-find p (x ∷ xs) h = elim (Bool-cases (p x)) [
  | inl here ↦ (x, rw here refl)
  | inr later ↦
      let (y, found) = any-find p xs (let e : any p xs ≡ true = ground arith in e) in
      (y, rw later found)
]

abbrev with_plan : TokenRow → Plan → Token
with_plan t p = record {
  id = t.id;
  code = t.code;
  name = t.name;
  plan_id = t.plan_id;
  status = t.status;
  created_at = t.created_at;
  redeemed_at = t.redeemed_at;
  expires_at = t.expires_at;
  duration_minutes = p.duration_minutes;
  plan_name = p.name;
}

shown_token :
    (db : Database) (t : TokenRow) → HasPlan db t → (s : Token) × (token_view db t ≡ some s)
unfolding token_view
shown_token db t h =
    let (p, found) = any-find (λ (q : Plan). eqb q.id t.plan_id) db.plans h in
    (with_plan t p, rw (found, token_view) refl)

length-join :
    (db : Database) (rows : List TokenRow)
    → All (HasPlan db) rows
    → length (join_rows (token_view db) rows) ≡ length rows
length-join db [] h = refl
length-join db (t ∷ rows) h =
    let (s, viewed) = shown_token db t h.0 in
    rw (viewed, join_rows) (ap suc (length-join db rows h.1))

length-retain : {A : Type 0} (p : A → Bool) (xs : List A) → length (retain p xs) ≡ count_where p xs
length-retain p [] = refl
length-retain p (x ∷ xs) = ground (arith, length-retain p xs)

module _ (before : TokenRow → TokenRow → Bool) where
  length-insert :
      (t : TokenRow) (rows : List TokenRow)
      → length (insert_newest before t rows) ≡ suc (length rows)
  unfolding insert_newest
  length-insert t [] = refl
  length-insert t (u ∷ rows) = ground (arith, length-insert t rows)

  length-newest : (rows : List TokenRow) → length (newest_first before rows) ≡ length rows
  unfolding newest_first
  length-newest [] = refl
  length-newest (t ∷ rows) =
      length-insert t (newest_first before rows) ∙ ap suc (length-newest rows)

  All-insert :
      (P : TokenRow → Type 0) (t : TokenRow) (rows : List TokenRow)
      → P t
      → All P rows
      → All P (insert_newest before t rows)
  unfolding insert_newest
  All-insert P t [] h hs = (h, tt)
  All-insert P t (u ∷ rows) h hs =
      elim (Bool-cases
        (ltb u.created_at t.created_at || (eqb u.created_at t.created_at && before t u))) [
          | inl newer ↦ rw newer (h, hs)
          | inr older ↦ rw older (hs.0, All-insert P t rows h hs.1)
        ]

  All-newest :
      (P : TokenRow → Type 0) (rows : List TokenRow) → All P rows → All P (newest_first before rows)
  unfolding newest_first
  All-newest P [] h = tt
  All-newest P (t ∷ rows) h = All-insert P t (newest_first before rows) h.0 (All-newest P rows h.1)

-- How many rows a page shows depends on how many there are.
pub length-page :
    {A : Type 0} (n m : ℕ) (xs ys : List A)
    → length xs ≡ length ys
    → length (take n (drop m xs)) ≡ length (take n (drop m ys))
length-page zero zero xs ys h = refl
length-page zero (suc m) xs ys h = refl
length-page (suc n) zero [] [] h = refl
length-page (suc n) zero [] (y ∷ ys) h = absurd (omega arith)
length-page (suc n) zero (x ∷ xs) [] h = absurd (omega arith)
length-page (suc n) zero (x ∷ xs) (y ∷ ys) h = ap suc (length-page n zero xs ys (omega arith))
length-page (suc n) (suc m) [] [] h = refl
length-page (suc n) (suc m) [] (y ∷ ys) h = absurd (omega arith)
length-page (suc n) (suc m) (x ∷ xs) [] h = absurd (omega arith)
length-page (suc n) (suc m) (x ∷ xs) (y ∷ ys) h = length-page (suc n) m xs ys (omega arith)

pub length-take-le : {A : Type 0} (n : ℕ) (xs : List A) → length (take n xs) ≤ n
length-take-le zero xs = omega arith
length-take-le (suc n) [] = omega arith
length-take-le (suc n) (x ∷ xs) = omega (arith, length-take-le n xs)

pub length-pages :
    {A : Type 0} (f g : ℕ → List A) (n : ℕ)
    → ((k : ℕ) → length (f (suc k)) ≡ length (g (suc k)))
    → length (pages_upto f n) ≡ length (pages_upto g n)
length-pages f g zero h = refl
length-pages f g (suc n) h = omega (
  arith,
  length-append (pages_upto f n) (f (suc n)),
  length-append (pages_upto g n) (g (suc n)),
  length-pages f g n h,
  h n,
)

pub count-same :
    (f : Filter) (now : ℕ) (rows : List TokenRow)
    → count_where (counts f now) rows ≡ count_where (matches f now) rows
unfolding counts matches
count-same f now [] = refl
count-same current now (t ∷ rows) = ground (arith, count-same current now rows)
count-same only_active now (t ∷ rows) = ground (arith, count-same only_active now rows)
count-same only_expired now (t ∷ rows) = ground (arith, count-same only_expired now rows)
count-same everything now (t ∷ rows) = ground (arith, count-same everything now rows)
count-same (by_status s) now (t ∷ rows) = ground (arith, count-same (by_status s) now rows)

module _ (db : Database) (sound : IsSound db) (f : Filter) (offset now : ℕ) where
  abbrev relabel : TokenRow → TokenRow
  relabel t = record t { status = shown_status f now t }

  All-relabel : (rows : List TokenRow) → All (HasPlan db) rows → All (HasPlan db) (map relabel rows)
  All-relabel [] h = tt
  All-relabel (t ∷ rows) h = (h.0, All-relabel rows h.1)

  length-relabel : (rows : List TokenRow) → length (map relabel rows) ≡ length rows
  length-relabel [] = refl
  length-relabel (t ∷ rows) = ap suc (length-relabel rows)

  pub length-selected : length (selected db f offset now) ≡ count_where (matches f now) db.tokens
  unfolding selected
  length-selected =
      let kept = retain (matches f now) db.tokens in
      length-join db (map relabel (newest_first (db.ties offset) kept)) (
        All-relabel (newest_first (db.ties offset) kept) (
          All-newest (db.ties offset) (HasPlan db) kept
            (All-retain (HasPlan db) (matches f now) db.tokens sound.token_plans)))
      ∙ length-relabel (newest_first (db.ties offset) kept)
      ∙ length-newest (db.ties offset) kept
      ∙ length-retain (matches f now) db.tokens
