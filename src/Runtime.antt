-- ===== src/Runtime.antt =====
-- What the service takes from Python's runtime and libraries and does not implement: floats, how
-- values are printed, hashing, and the JSON codec. Later modules take a `Runtime` as a parameter.
use vaultwatch.Base.{
  ℕ, String, Bool, true, false, not, truthy, ◌≡◌, Option, some, List, [], ◌∷◌, if◌then◌else◌,
}
use vaultwatch.Base.Int.{ℤ, pos, negsuc}
use vaultwatch.Models.Values.{
  Json, Dict, Items, null, bool, int, float, str, arr, obj, nil, cons, empty, entry,
}

pub record Runtime : Type 1 where
  -- `float`, its comparison, its arithmetic, and the literal `m / 10 ** k`
  pub Num : Type 0
  pub le : Num → Num → Bool
  pub lt : Num → Num → Bool
  pub is_zero : Num → Bool
  pub add : Num → Num → Num
  pub sub : Num → Num → Num
  pub mul : Num → Num → Num
  pub div : Num → Num → Num
  pub sum : List Num → Num
  pub of_ℤ : ℤ → Num
  pub decimal : ℕ → ℕ → Num
  -- `f"{x:.2f}"`, `f"{x}"` for a float, an int, a dict and a list
  pub fixed2 : Num → String
  pub show_num : Num → String
  pub show_int : ℤ → String
  pub show_dict : Dict Num → String
  pub show_json : Json Num → String
  pub show_list : List String → String
  -- `hashlib.sha256(s.encode()).hexdigest()[:16]`, `name.strip().lower()`
  pub sha256_16 : String → String
  pub strip_lower : String → String
  -- `json.dumps` of a dict, and `json.loads`, which may fail
  pub dumps : Dict Num → String
  pub loads : String → Option (Json Num)
  -- what pydantic accepts of a JSON value for a field of each type
  pub to_str : Json Num → Option String
  pub to_int : Json Num → Option ℤ
  pub to_float : Json Num → Option Num
  pub to_bool : Json Num → Option Bool
  pub to_strs : Json Num → Option (List String)

abbrev pub strs : {N : Type 0} → List String → Items N
strs [] = nil
strs (x ∷ xs) = cons (str x) (strs xs)

-- pydantic takes a value that has the field's type already as it is.
pub record Validates (rt : Runtime) : Type 0 where
  pub to_str-str : (s : String) → rt.to_str (str s) ≡ some s
  pub to_int-int : (z : ℤ) → rt.to_int (int z) ≡ some z
  pub to_float-float : (x : rt.Num) → rt.to_float (float x) ≡ some x
  pub to_bool-bool : (b : Bool) → rt.to_bool (bool b) ≡ some b
  pub to_strs-strs : (l : List String) → rt.to_strs (arr (strs l)) ≡ some l

module _ (rt : Runtime) where
  open rt use {Num, is_zero}

  -- `bool(x)` of a JSON value
  unfoldable pub truth : Json Num → Bool
  truth null = false
  truth (bool b) = b
  truth (int (pos Prim.Native.Nat.zero)) = false
  truth (int (pos (Prim.Native.Nat.suc _))) = true
  truth (int (negsuc _)) = true
  truth (float x) = not (is_zero x)
  truth (str s) = truthy s
  truth (arr nil) = false
  truth (arr (cons _ _)) = true
  truth (obj empty) = false
  truth (obj (entry _ _ _)) = true

  -- `v or default`
  unfoldable pub or_else : Json Num → Json Num → Json Num
  unfolding truth
  or_else v default = if truth v then v else default
