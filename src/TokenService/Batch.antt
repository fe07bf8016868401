-- ===== src/TokenService/Batch.antt =====
-- src/services/token.rs: which rows a batch leaves, whether it ends or is cut off.
use didicafe.Base.{
  ℕ, zero, suc, ◌+◌, ◌≤◌, ◌<◌, ◌≡◌, refl, sym, ap, ◌∙◌, inl, inr, Bool-cases, Bool, true, false,
  Option, none, some, List, [], ◌∷◌, ◌++◌, take, length, any, eqb, ◌==◌, Str, str_eq, Result, ok,
  err, arith, All, IsAscii,
}
use didicafe.TokenCode.{TokenConfig, generate_code, validate_token_format}
use didicafe.TokenCode.Format.{generate_code-valid}
use didicafe.Db.Models.{TokenStatus, Plan, seconds}
use didicafe.Db.Tables.{Database, TokenRow}
use didicafe.Db.Tokens.{create_token}
use didicafe.Firewall.{Firewall}
use didicafe.World.{World, ServiceError, execute, commit, continue, pure}
use didicafe.TokenService.{
  Draws, generate_codes, insert_codes, insert_batch, generate_tokens, add_code,
}

append_assoc : {A : Type 0} (xs ys zs : List A) → (xs ++ ys) ++ zs ≡ xs ++ (ys ++ zs)
append_assoc [] ys zs = refl
append_assoc (x ∷ xs) ys zs = ap (◌∷◌ x) (append_assoc xs ys zs)

append_nil : {A : Type 0} (xs : List A) → xs ++ [] ≡ xs
append_nil [] = refl
append_nil (x ∷ xs) = ap (◌∷◌ x) (append_nil xs)

take_all : {A : Type 0} (xs : List A) (k : ℕ) → k ≡ length xs → take k xs ≡ xs
take_all [] k h = rw h refl
take_all (x ∷ xs) zero h = absurd (omega arith)
take_all (x ∷ xs) (suc k) h = ap (◌∷◌ x) (take_all xs k (omega arith))

module _ (name : Option Str) (plan_id now : ℕ) where
  -- The rows of a batch, from an id on.
  abbrev pub added : ℕ → List Str → List TokenRow
  added id [] = []
  added id (code ∷ codes) =
      record {
        id = id;
        code = code;
        name = name;
        plan_id = plan_id;
        status = TokenStatus.unused;
        created_at = seconds now;
        redeemed_at = none;
        expires_at = none;
      }
      ∷ added (id + 1) codes

  joined :
      (before after : List TokenRow) (n m : ℕ) (code : Str) (codes : List Str)
      → after ≡ before ++ added n (code ∷ [])
      → m ≡ n + 1
      → after ++ added m codes ≡ before ++ added n (code ∷ codes)
  joined before after n m code codes rows count =
      rw rows rw count (append_assoc before (added n (code ∷ [])) (added (n + 1) codes))

  module _ {fw : Firewall} where
    -- One row more, or an error and the same rows.
    abbrev After : Str → Database → Result ServiceError ℕ × World fw → Type 0
    After code db (err e, w) = w.db.tokens ≡ db.tokens
    After code db (ok id, w) =
        (w.db.tokens ≡ db.tokens ++ added db.next_token (code ∷ []))
        × (w.db.next_token ≡ db.next_token + 1)

    committed :
        (code : Str) (w : World fw)
        → After code w.db (commit (create_token w.db code name plan_id now) w)
    unfolding create_token
    committed code w = elim (Bool-cases (any (λ (t : TokenRow). t.code == code) w.db.tokens)) [
      | inl taken ↦ rw taken refl
      | inr free ↦ elim (Bool-cases (any (λ (p : Plan). eqb p.id plan_id) w.db.plans)) [
        | inl there ↦ rw free rw there (refl, refl)
        | inr missing ↦ rw free rw missing refl
      ]
    ]

    created_at :
        (code : Str) (w : World fw) (io : List Bool)
        → After code w.db
            (execute (λ db. create_token db code name plan_id now) (record w { io = io }))
    unfolding execute
    created_at code w [] = committed code (record w { io = [] })
    created_at code w (true ∷ io) = refl
    created_at code w (false ∷ io) = committed code (record w { io = io })

    -- What the loop goes on to after one row.
    abbrev Inserted : Database → List Str → Result ServiceError (Unit {0}) × World fw → Type 0
    Inserted db codes (r, w) =
        (k : ℕ) × (k ≤ length codes)
        × (w.db.tokens ≡ db.tokens ++ added db.next_token (take k codes))
        × (r ≡ ok tt → k ≡ length codes)

    one_more :
        (code : Str) (codes : List Str) (db : Database) (r : Result ServiceError ℕ × World fw)
        → After code db r
        → ((w : World fw) → Inserted w.db codes (insert_codes fw name plan_id now codes w))
        → Inserted db
            (code ∷ codes)
            (continue r (λ (id : ℕ). insert_codes fw name plan_id now codes))
    one_more code codes db (err e, w) same next =
        (0, omega arith, same ∙ sym (append_nil db.tokens), λ h. absurd (cc))
    one_more code codes db (ok id, w) (rows, count) next =
        let (k, bound, tokens, all) = next w in
        let moved =
          joined db.tokens w.db.tokens db.next_token w.db.next_token code (take k codes) rows
            count in
        (suc k, omega arith, tokens ∙ moved, λ h. ap suc (all h))

    inserted :
        (codes : List Str) (w : World fw)
        → Inserted w.db codes (insert_codes fw name plan_id now codes w)
    unfolding insert_codes
    inserted [] w = (0, omega arith, sym (append_nil w.db.tokens), λ h. refl)
    inserted (code ∷ codes) w =
        one_more code codes w.db (execute (λ db. create_token db code name plan_id now) w)
          (created_at code w w.io) (inserted codes)

    -- A batch that is cut off has inserted its first codes and no others, each as an unused token of the
    -- plan under the next id: what it leaves is never anything else.
    pub insert_codes-prefix :
        (codes : List Str) (w : World fw)
        → (k : ℕ) × (k ≤ length codes)
          × ((insert_codes fw name plan_id now codes w).1.db.tokens
              ≡ w.db.tokens ++ added w.db.next_token (take k codes))
    insert_codes-prefix codes w =
        let (k, bound, tokens, all) = inserted codes w in (k, bound, tokens)

    inserted_all :
        (codes : List Str) (w : World fw)
        → (insert_codes fw name plan_id now codes w).0 ≡ ok tt
        → (insert_codes fw name plan_id now codes w).1.db.tokens
          ≡ w.db.tokens ++ added w.db.next_token codes
    inserted_all codes w h =
        let (k, bound, tokens, all) = inserted codes w in
        tokens ∙ ap (λ cs. w.db.tokens ++ added w.db.next_token cs) (take_all codes k (all h))

    answered :
        (codes answer : List Str) (r : Result ServiceError (Unit {0}) × World fw)
        → (continue r (λ (u : Unit {0}). pure codes)).0 ≡ ok answer
        → (r.0 ≡ ok tt) × (codes ≡ answer) × ((continue r (λ (u : Unit {0}). pure codes)).1 ≡ r.1)
    answered codes answer (ok u, w) h = (refl, ground arith, refl)
    answered codes answer (err e, w) h = absurd cc

    batch_added :
        (w : World fw) (drawn : Option (List Str)) (codes : List Str)
        → (insert_batch fw name plan_id now drawn w).0 ≡ ok codes
        → (drawn ≡ some codes)
          × ((insert_batch fw name plan_id now drawn w).1.db.tokens
              ≡ w.db.tokens ++ added w.db.next_token codes)
    batch_added w none codes h = absurd cc
    batch_added w (some cs) codes h =
        let (done, same, world) = answered cs codes (insert_codes fw name plan_id now cs w) h in
        (
          ap some same,
          ap (λ v. v.db.tokens) world
              ∙ (inserted_all cs w done ∙ ap (λ xs. w.db.tokens ++ added w.db.next_token xs) same),
        )

add_code-length :
    (o : Option Str) (os : Option (List Str)) (codes : List Str) (n : ℕ)
    → ((cs : List Str) → os ≡ some cs → length cs ≡ n)
    → add_code o os ≡ some codes
    → length codes ≡ suc n
add_code-length (some code) (some cs) codes n sizes h =
    let size = sizes cs refl in ground (arith, size)
add_code-length none os codes n sizes h = absurd cc
add_code-length (some code) none codes n sizes h = absurd cc

generate_codes_length :
    (config : TokenConfig) (draws : Draws) (i count : ℕ) (codes : List Str)
    → generate_codes config draws i count ≡ some codes
    → length codes ≡ count
unfolding generate_codes
generate_codes_length config draws i zero codes h = ground arith
generate_codes_length config draws i (suc count) codes h =
    add_code-length (generate_code config (draws i).0 (draws i).1)
      (generate_codes config draws (i + 1) count) codes count
      (generate_codes_length config draws (i + 1) count) h

-- Every code of a batch that is asked for has the format that the form accepts, and no draw in range
-- makes the generator fail.
pub generate_codes-valid :
    (config : TokenConfig) (draws : Draws) (i count : ℕ)
    → IsAscii config.charset
    → ((j n : ℕ) → (draws j).0 n < length config.charset)
    → ((j n : ℕ) → (draws j).1 n < length config.charset)
    → (codes : List Str) × (generate_codes config draws i count ≡ some codes)
      × (length codes ≡ count)
      × All (λ code. validate_token_format config code ≡ ok tt) codes
unfolding generate_codes
generate_codes-valid config draws i zero a h1 h2 = ([], refl, refl, tt)
generate_codes-valid config draws i (suc count) a h1 h2 =
    let (code, drawn, valid) = generate_code-valid config (draws i).0 (draws i).1 a (h1 i) (h2 i) in
    let (codes, rest, size, all) = generate_codes-valid config draws (i + 1) count a h1 h2 in
    (code ∷ codes, rw drawn rw rest refl, ap suc size, (valid, all))

-- A batch that answers has added exactly `count` rows: its codes, each unused, of the plan, under the
-- next ids; the rows before it are as they were.
pub generate_tokens-added :
    {fw : Firewall} (config : TokenConfig) (draws : Draws) (plan_id count now : ℕ)
    (name : Option Str) (w : World fw) (codes : List Str)
    → (generate_tokens fw config draws plan_id count name now w).0 ≡ ok codes
    → (length codes ≡ count)
      × ((generate_tokens fw config draws plan_id count name now w).1.db.tokens
          ≡ w.db.tokens ++ added name plan_id now w.db.next_token codes)
unfolding generate_tokens
generate_tokens-added config draws plan_id count now name w codes h =
    let (drawn, tokens) =
      batch_added name plan_id now w (generate_codes config draws 0 count) codes h in
    (generate_codes_length config draws 0 count codes drawn, tokens)
