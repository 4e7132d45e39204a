-- ===== src/Lcs.antt =====
-- algo/lcs/dp.go and edit.go: the longest common subsequence by dynamic programming, and the edit script
-- read off its table. `none` is an index out of range, or a recursion whose fuel ran out.
pub mod Best
pub mod Grid
pub mod Fill
pub mod Backtrack
pub mod Edits
pub mod Script
pub mod Members
pub mod Ends
pub mod All
mod Tests
use go_pkgs.Common.{
  ℕ, zero, suc, ◌+◌, ◌-◌, Bool, true, false, ◌&&◌, ◌||◌, List, [], ◌∷◌, ◌++◌, map, Option, none,
  some, length, get_elem?, store, replicate, ltb, ◌==◌, if◌then◌else◌, ◌>>=◌,
}
use go_pkgs.Common.Equality.{Equality}
use go_pkgs.Common.Loop.{for}

-- A uint8 with one of four values, of which diagonal is the zero value.
pub data Direction : Type 0 where
  diagonal up left up_and_left : Direction

pub record Dp {ℓ} (A : Type ℓ) : Type ℓ where
  pub a : List A
  pub b : List A
  pub filled : Bool
  pub directions : List (List Direction)

-- `t[x][y]` and `t[x][y] = v`
pub read {ℓ} : {V : Type ℓ} → List (List V) → ℕ → ℕ → Option V
read t x y = do column ← get_elem? t x; get_elem? column y

pub write {ℓ} : {V : Type ℓ} → List (List V) → ℕ → ℕ → V → Option (List (List V))
write t x y v = do column ← get_elem? t x; column' ← store column y v; store t x column'

-- A table of one more column than `a` has elements and one more row than `b`.
pub blank {ℓ κ} : {A : Type ℓ} {V : Type κ} → List A → List A → V → List (List V)
blank a b v = replicate (length a + 1) (replicate (length b + 1) v)

pub is_diagonal : Direction → Bool
is_diagonal diagonal = true
is_diagonal _ = false

pub is_up : Direction → Bool
is_up up = true
is_up up_and_left = true
is_up _ = false

pub is_left : Direction → Bool
is_left left = true
is_left _ = false

-- The conditions of diff.
pub keeps : ℕ → ℕ → Direction → Bool
keeps i j dir = ltb 0 i && (ltb 0 j && is_diagonal dir)

pub inserts : ℕ → ℕ → Direction → Bool
inserts i j dir = ltb 0 j && (i == 0 || is_up dir)

pub deletes : ℕ → ℕ → Direction → Bool
deletes i j dir = ltb 0 i && (j == 0 || is_left dir)

-- The kinds of edit, in the order of the constants.
pub data EditOp : Type 0 where
  insert delete identical : EditOp

pub record Edit {ℓ} (A : Type ℓ) : Type ℓ where
  pub op : EditOp
  pub a : ℕ
  pub b : ℕ
  pub val : A

-- The case of unequal elements, from the cells to the left and above.
pub choose : ℕ → ℕ → ℕ × Direction
choose prev_left prev_up =
    if ltb prev_left prev_up
    then (prev_up, up)
    else if ltb prev_up prev_left
    then (prev_left, left)
    else (prev_left, up_and_left)

module _ {ℓ} {A : Type ℓ} where
  pub new : List A → List A → Dp A
  new a b = record { a = a; b = b; filled = false; directions = blank a b diagonal }

module _ {ℓ} {A : Type ℓ} (E : Equality A) where
  -- The body of fill's inner loop; both loops start at 1.
  pub fill_cell :
      List A
      → List A
      → ℕ
      → ℕ
      → List (List ℕ) × List (List Direction)
      → Option (List (List ℕ) × List (List Direction))
  fill_cell a b y x (table, directions) = do
    u ← get_elem? a (x - 1)
    w ← get_elem? b (y - 1)
    before ← read table (x - 1) (y - 1)
    prev_left ← read table (x - 1) y
    prev_up ← read table x (y - 1)
    let (v, dir) = if E.same u w then (before + 1, diagonal) else choose prev_left prev_up
    table' ← write table x y v
    directions' ← write directions x y dir
    some (table', directions')

  pub fill_row :
      List A
      → List A
      → ℕ
      → List (List ℕ) × List (List Direction)
      → Option (List (List ℕ) × List (List Direction))
  fill_row a b y = for (length a) 1 (fill_cell a b y)

  pub fill : Dp A → Option (Dp A)
  fill dp = if dp.filled then some dp else do
    (_, directions) ← for (length dp.b) 1 (fill_row dp.a dp.b) (blank dp.a dp.b 0, dp.directions)
    some (record dp { filled = true; directions = directions })

module _ {ℓ} {A : Type ℓ} where
  -- One round of fuel for each step left or up.
  pub backtrack : ℕ → Dp A → ℕ → ℕ → Option (List A)
  backtrack zero dp i j = none
  backtrack (suc fuel) dp i j = elim (i == 0 || j == 0) [
    | true ↦ some []
    | false ↦ read dp.directions i j >>= λ dir. elim dir [
      | diagonal ↦ do
        before ← backtrack fuel dp (i - 1) (j - 1)
        v ← get_elem? dp.a (i - 1)
        some (before ++ v ∷ [])
      | up ↦ backtrack fuel dp i (j - 1)
      | up_and_left ↦ backtrack fuel dp i (j - 1)
      | left ↦ backtrack fuel dp (i - 1) j
    ]
  ]

  pub extend : List A → ℕ → List (List A) → Option (List (List A))
  extend a i [] = do v ← get_elem? a i; some ((v ∷ []) ∷ [])
  extend a i (p ∷ ps) = do v ← get_elem? a i; some (map (λ q. q ++ v ∷ []) (p ∷ ps))

  -- The rest of backtrackAll for cells with a direction, where `next` stands for its calls of itself.
  pub backtrack_round :
      (ℕ → ℕ → Option (List (List A))) → Dp A → ℕ → ℕ → Direction → Option (List (List A))
  backtrack_round next dp i j diagonal = next (i - 1) (j - 1) >>= extend dp.a (i - 1)
  backtrack_round next dp i j up = next i (j - 1)
  backtrack_round next dp i j left = next (i - 1) j
  backtrack_round next dp i j up_and_left = do
    paths ← next i (j - 1)
    more ← next (i - 1) j
    some (paths ++ more)

  pub backtrack_all : ℕ → Dp A → ℕ → ℕ → Option (List (List A))
  backtrack_all zero dp i j = none
  backtrack_all (suc fuel) dp i j = elim (i == 0 || j == 0) [
    | true ↦ some []
    | false ↦ do dir ← read dp.directions i j; backtrack_round (backtrack_all fuel dp) dp i j dir
  ]

  -- The rest of diff, where `next` stands for its calls of itself.
  pub diff_round :
      (ℕ → ℕ → Option (List (Edit A))) → Dp A → ℕ → ℕ → Direction → Option (List (Edit A))
  diff_round next dp i j dir = elim (keeps i j dir) [
    | true ↦ do
      before ← next (i - 1) (j - 1)
      v ← get_elem? dp.b (j - 1)
      some (before ++ record { op = identical; a = i - 1; b = j - 1; val = v } ∷ [])
    | false ↦ elim (inserts i j dir) [
      | true ↦ do
        before ← next i (j - 1)
        v ← get_elem? dp.b (j - 1)
        some (before ++ record { op = insert; a = i; b = j - 1; val = v } ∷ [])
      | false ↦ elim (deletes i j dir) [
        | true ↦ do
          before ← next (i - 1) j
          v ← get_elem? dp.a (i - 1)
          some (before ++ record { op = delete; a = i - 1; b = j; val = v } ∷ [])
        | false ↦ some []
      ]
    ]
  ]

  pub diff : ℕ → Dp A → ℕ → ℕ → Option (List (Edit A))
  diff zero dp i j = none
  diff (suc fuel) dp i j = do dir ← read dp.directions i j; diff_round (diff fuel dp) dp i j dir

  -- What the switch of Apply appends for one edit.
  pub apply_edit : List A → Edit A → Option (List A)
  apply_edit a e = elim e.op [
    | insert ↦ some (e.val ∷ [])
    | identical ↦ do v ← get_elem? a e.a; some (v ∷ [])
    | delete ↦ some []
  ]

  -- The loop of Apply, over the script.
  pub apply_edits : List (Edit A) → List A → Option (List A)
  apply_edits [] a = some []
  apply_edits (e ∷ es) a = do added ← apply_edit a e; rest ← apply_edits es a; some (added ++ rest)

  -- EditScript.Apply
  pub apply : List (Edit A) → List A → Option (List A)
  apply [] a = some a
  apply (e ∷ es) a = apply_edits (e ∷ es) a

  pub reverse_edit : Edit A → Edit A
  reverse_edit e = elim e.op [
    | identical ↦ record { op = insert; a = e.b; b = e.a; val = e.val }
    | delete ↦ record { op = insert; a = e.b; b = e.a; val = e.val }
    | insert ↦ record { op = delete; a = e.b; b = e.a; val = e.val }
  ]

  -- EditScript.Reverse
  pub reverse : List (Edit A) → List (Edit A)
  reverse [] = []
  reverse (e ∷ es) = reverse_edit e ∷ reverse es

module _ {ℓ} {A : Type ℓ} (E : Equality A) where
  -- DP.LCS, of a DP that fill returns with its directions.
  pub lcs : Dp A → Option (List A)
  lcs dp = do
    filled ← fill E dp
    backtrack (suc (length filled.a + length filled.b)) filled (length filled.a) (length filled.b)

  -- DP.AllLCS
  pub all_lcs : Dp A → Option (List (List A))
  all_lcs dp = do
    filled ← fill E dp
    backtrack_all (suc (length filled.a + length filled.b)) filled (length filled.a)
        (length filled.b)

  -- DP.SES of a DP that NewDP made, whose directions are not nil.
  pub ses : Dp A → Option (List (Edit A))
  ses dp = do
    filled ← fill E dp
    diff (suc (length filled.a + length filled.b)) filled (length filled.a) (length filled.b)
