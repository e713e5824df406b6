-- ===== src/Ots/Families.antt =====
-- `families` and `experiments` of scripts/ots_experiments.py: the four graph shapes and their rows.
use text.Mathlib.Text.{◌==◌ as str_eq}
use leansphincs.Base.{
  ℕ, zero, suc, ◌+◌, ◌*◌, ◌^◌, String, Bool, true, false, not, ◌&&◌, ◌||◌, List, [], ◌∷◌, Option,
  none, some, leb, if◌then◌else◌, Result, ok, value_error, ◌>>=◌, ◌>>◌, raise_if,
}
use leansphincs.Base.Fraction.{Fraction}
use leansphincs.Base.Value.{str_mem}
use leansphincs.Scoring.{additive_score}
use leansphincs.Ots.Poly.{Poly, multiply, power}
use leansphincs.Ots.Cost.{hash_cost}
use leansphincs.Ots.Rows.{comb, shared_rows}
use leansphincs.Ots.Pareto.{Candidate, pareto}
use leansphincs.Ots.Search.{candidates}
use leansphincs.Ots.Selection.{whole, choose}

-- The tuple of a family. The chains have no polynomial of a component.
pub record Family : Type 0 where
  pub name : String
  pub poly : Option Poly
  pub count : ℕ
  pub component_cost : ℕ
  pub roots : ℕ

-- `{(merge + j, 4): comb(4, j) for j in range(5)}`, by the rounds that are left.
abbrev pub forest_rows : ℕ → ℕ → ℕ → Poly
forest_rows merge zero j = []
forest_rows merge (suc n) j = ((merge + j, 4), comb 4 j) ∷ forest_rows merge n (suc j)

-- `{(c + merge, f): n for (c, f), n in poly.items()}`
abbrev pub shifted : ℕ → Poly → Poly
shifted merge [] = []
shifted merge (((c, f), n) ∷ poly) = ((c + merge, f), n) ∷ shifted merge poly

-- A merge costs something, so that no shifted key is (0, 1).
abbrev pub component : ℕ → Poly → Poly
component merge poly = ((0, 1), 1) ∷ shifted merge poly

unfoldable pub families : String → Result (List Family)
families profile = do
  merge ← hash_cost 4 profile
  let forest : Poly = ((0, 1), 1) ∷ forest_rows merge 5 0
  pairs ← shared_rows 2 profile
  four ← shared_rows 4 profile
  let expansion4 = if str_eq profile "paper" then 1 else 2
  ok (
      record { name = "chains"; poly = none; count = 116; component_cost = 139; roots = 116 }
      ∷ record {
        name = "forest";
        poly = some forest;
        count = 32;
        component_cost = 4 + merge;
        roots = 32;
      }
      ∷ record {
        name = "pairs";
        poly = some (component merge (multiply 1000 128 pairs pairs));
        count = 12;
        component_cost = 8 + 5 * merge;
        roots = 12;
      }
      ∷ record {
        name = "four";
        poly = some (component merge four);
        count = 18;
        component_cost = 4 * expansion4 + 5 * merge;
        roots = 18;
      }
      ∷ [])

-- A row of the output. `row.update(…)` adds the fields of the chosen candidate.
pub record Row : Type 0 where
  pub family : String
  pub keygen : ℕ
  pub chosen : Option Candidate
  pub codebook_found : Bool
  pub frontier : Option (List Candidate)

abbrev pub is_found : List Candidate → Bool
is_found [] = false
is_found (c ∷ cs) = true

abbrev pub chain1 : Poly
chain1 = ((0, 1), 1) ∷ ((1, 1), 1) ∷ []

abbrev pub chain2 : Poly
chain2 = ((0, 1), 1) ∷ ((1, 1), 1) ∷ ((2, 1), 1) ∷ []

-- The branches of `name == "chains"`.
abbrev pub local_cost : Family → Option Poly → ℕ
local_cost f none = f.component_cost
local_cost f (some poly) = f.count * f.component_cost

abbrev pub choices_of : Family → ℕ → ℕ → Option Poly → Poly
choices_of f max_cost max_values none =
    multiply max_cost max_values (power max_cost max_values chain2 23)
      (power max_cost max_values chain1 93)
choices_of f max_cost max_values (some poly) = power max_cost max_values poly f.count

module _ (profile : String) (bits max_values : ℕ) (selection : String) (include_frontier : Bool)
    (bandwidth_price : Option Fraction) where
  -- The body of the loop over the families.
  unfoldable pub family_row : Family → Result Row
  family_row f = do
    root_cost ← hash_cost f.roots profile
    block_cost ← hash_cost 4 profile
    let cost = local_cost f f.poly
    let choices = choices_of f cost max_values f.poly
    let found = candidates choices (2 ^ bits) max_values root_cost block_cost (suc cost) 0
    chosen ← choose selection bandwidth_price found
    ok (record {
      family = f.name;
      keygen = cost + root_cost;
      chosen = chosen;
      codebook_found = is_found found;
      frontier =
          if include_frontier || str_eq selection "frontier" then some (pareto found) else none;
    })

  unfoldable pub family_rows : List Family → Result (List Row)
  family_rows [] = ok []
  family_rows (f ∷ fs) = do row ← family_row f; rest ← family_rows fs; ok (row ∷ rest)

  -- `if selection == "additive": …`
  abbrev pub check_price : Option Fraction → Result (Unit {0})
  check_price none =
      raise_if (str_eq selection "additive")
        (value_error "additive selection requires an explicit bandwidth price")
  check_price (some price) =
      if str_eq selection "additive"
      then (additive_score (whole 1) (whole 1) price >>= (λ score. ok tt))
      else ok tt

  unfoldable pub experiments : Result (List Row)
  experiments = do
    raise_if (not (leb 1 bits && leb bits 127) || not (leb 1 max_values && leb max_values 128))
        (value_error "bounded experiment requires bits in 1..127, values in 1..128")
    raise_if (not (str_mem selection ("product" ∷ "verification" ∷ "additive" ∷ "frontier" ∷ [])))
        (value_error "unknown selection objective")
    check_price bandwidth_price
    fs ← families profile
    family_rows fs
