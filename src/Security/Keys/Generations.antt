-- ===== src/Security/Keys/Generations.antt =====
-- Lists of generations, and the active ones of a table (src/sentinel_edge/security/key_lifecycle.py).
use sentinel_edge.Prelude.{
  ◌==◌, if◌then◌else◌, keep, any, All, ℕ, ◌≤◌, ◌<◌, String, ◌≡◌, refl, ap, ◌∙◌, Bool, true, false,
  not, ◌&&◌, ◌||◌, List, [], ◌∷◌, ◌++◌, arith, str_eq,
}
use sentinel_edge.Security.Keys.{
  KeyPurpose, KeyState, KeyRow, is_row, is_active, set_state, active_generations, insert_descending,
  descending, maximum, same_purpose,
}

abbrev pub among : ℕ → List ℕ → Bool
among m ns = any (λ n. m == n) ns

abbrev pub remove : ℕ → List ℕ → List ℕ
remove n l = keep (λ m. not (m == n)) l

abbrev pub remove_all : List ℕ → List ℕ → List ℕ
remove_all [] l = l
remove_all (n ∷ ns) l = remove_all ns (remove n l)

among-insert_descending :
    (m n : ℕ) (ns : List ℕ) → among m (insert_descending n ns) ≡ (m == n || among m ns)
unfolding insert_descending
among-insert_descending m n [] = refl
among-insert_descending m n (k ∷ ns) = ground (arith, among-insert_descending m n ns)

pub among-descending : (m : ℕ) (ns : List ℕ) → among m (descending ns) ≡ among m ns
unfolding descending
among-descending m [] = refl
among-descending m (n ∷ ns) =
    ground (arith, among-descending m ns, among-insert_descending m n (descending ns))

among-maximum : (m : ℕ) (ns : List ℕ) → among m ns ≡ true → m ≤ maximum ns
among-maximum m [] h = ground arith
among-maximum m (n ∷ ns) h = ground (arith, among-maximum m ns)

remove-append : (n x : ℕ) (l : List ℕ) → remove n (l ++ x ∷ []) ≡ remove n l ++ remove n (x ∷ [])
remove-append n x [] = refl
remove-append n x (y ∷ l) = ground (arith, remove-append n x l)

remove_all-fresh :
    (ns l : List ℕ) (x : ℕ)
    → among x ns ≡ false
    → remove_all ns (l ++ x ∷ []) ≡ remove_all ns l ++ x ∷ []
remove_all-fresh [] l x h = refl
remove_all-fresh (n ∷ ns) l x h =
    ap (remove_all ns) (ground (arith, remove-append n x l))
    ∙ remove_all-fresh ns (remove n l) x ground arith

AreAmong-remove :
    (n : ℕ) (ns l : List ℕ)
    → All (λ m. among m (n ∷ ns) ≡ true) l
    → All (λ m. among m ns ≡ true) (remove n l)
AreAmong-remove n ns [] h = tt
AreAmong-remove n ns (m ∷ l) h = ground (arith, AreAmong-remove n ns l h.1)

remove_all-absorbs : (ns l : List ℕ) → All (λ m. among m ns ≡ true) l → remove_all ns l ≡ []
remove_all-absorbs [] [] h = refl
remove_all-absorbs [] (m ∷ l) h = ground arith
remove_all-absorbs (n ∷ ns) l h = remove_all-absorbs ns (remove n l) (AreAmong-remove n ns l h)

All-among :
    (l ns : List ℕ)
    → ((m : ℕ) → among m l ≡ true → among m ns ≡ true)
    → All (λ m. among m ns ≡ true) l
All-among [] ns f = tt
All-among (m ∷ l) ns f = (f m ground arith, All-among l ns (λ k h. f k (ground (arith, h))))

-- Removing all the generations of a list leaves only one that is newer than all of them.
pub remove_all-descending :
    (l : List ℕ) (x : ℕ)
    → among x (descending l) ≡ false
    → remove_all (descending l) (l ++ x ∷ []) ≡ x ∷ []
remove_all-descending l x h =
    remove_all-fresh (descending l) l x h
    ∙ ap (λ k. k ++ x ∷ [])
        (remove_all-absorbs (descending l) l
          (All-among l (descending l) (λ m k. among-descending m l ∙ k)))

pub newest_among : (l : List ℕ) (x : ℕ) → maximum l < x → among x l ≡ false
newest_among l x h = ground (arith, among-maximum x l)

if-row {ℓ} :
    {A : Type ℓ} (b : Bool) (x y : KeyRow) (f : KeyRow → A)
    → f (if b then x else y) ≡ (if b then f x else f y)
if-row true x y f = refl
if-row false x y f = refl

-- The effect of one row on both sides.
if-remove :
    (same_id same_use live : Bool) (generation n : ℕ) (rest : List ℕ)
    → (if same_id && generation == n && same_use
        then (if same_id && same_use && false then generation ∷ remove n rest else remove n rest)
        else (if same_id && same_use && live then generation ∷ remove n rest else remove n rest))
      ≡ remove n (if same_id && same_use && live then generation ∷ rest else rest)
if-remove same_id same_use live generation n rest = ground arith

abbrev pub count_row : String → KeyPurpose → List ℕ → KeyRow → List ℕ
count_row id purpose rest r =
    if str_eq r.payload.identity_id id
      && same_purpose r.payload.purpose purpose
      && is_active r.current_state
    then r.payload.generation ∷ rest
    else rest

pub active_generations-set_state :
    (id : String) (n : ℕ) (purpose : KeyPurpose) (rows : List KeyRow)
    → active_generations id purpose (set_state id n purpose KeyState.retired rows)
      ≡ remove n (active_generations id purpose rows)
unfolding active_generations set_state
active_generations-set_state id n purpose [] = refl
active_generations-set_state id n purpose (r ∷ rows) =
    let rest = active_generations id purpose rows in
    ap
      (λ l.
        count_row id purpose l
          (if is_row id n purpose r then record r { current_state = KeyState.retired } else r))
      (active_generations-set_state id n purpose rows)
    ∙ if-row (is_row id n purpose r) (record r { current_state = KeyState.retired }) r
        (count_row id purpose (remove n rest))
    ∙ if-remove (str_eq r.payload.identity_id id) (same_purpose r.payload.purpose purpose)
        (is_active r.current_state) r.payload.generation n rest

if-append :
    (b : Bool) (n : ℕ) (l m : List ℕ)
    → (if b then n ∷ l ++ m else l ++ m) ≡ (if b then n ∷ l else l) ++ m
if-append true n l m = refl
if-append false n l m = refl

-- A row at the end of the table counts when it is of this identity and purpose and active.
pub active_generations-append :
    (id : String) (purpose : KeyPurpose) (rows : List KeyRow) (r : KeyRow)
    → active_generations id purpose (rows ++ r ∷ [])
      ≡ active_generations id purpose rows ++ count_row id purpose [] r
unfolding active_generations
active_generations-append id purpose [] r = refl
active_generations-append id purpose (q ∷ rows) r =
    ap (λ l. count_row id purpose l q) (active_generations-append id purpose rows r)
    ∙ if-append
        (str_eq q.payload.identity_id id
          && same_purpose q.payload.purpose purpose
          && is_active q.current_state)
        q.payload.generation (active_generations id purpose rows) (count_row id purpose [] r)
