-- ===== src/Models/Values.antt =====
-- What `json.loads` gives and `json.dumps` takes: the values of a Python `dict[str, Any]`.
use vaultwatch.Base.{
  String, Bool, Option, none, some, List, [], ◌∷◌, ◌==◌, ◌≡◌, refl, if◌then◌else◌,
}
use vaultwatch.Base.Int.{ℤ}
use vaultwatch.Base.Exec.{Result, ok, err, other_exception}

mutual
  pub data Json (N : Type 0) : Type 0 where
    null : Json N
    bool : Bool → Json N
    int : ℤ → Json N
    float : N → Json N
    str : String → Json N
    arr : Items N → Json N
    obj : Dict N → Json N

  pub data Items (N : Type 0) : Type 0 where
    nil : Items N
    cons : Json N → Items N → Items N

  pub data Dict (N : Type 0) : Type 0 where
    empty : Dict N
    entry : String → Json N → Dict N → Dict N

module _ {N : Type 0} where
  -- `d.get(k)`
  unfoldable pub get : Dict N → String → Option (Json N)
  get empty k = none
  get (entry j v d) k = if j == k then some v else get d k

  -- `d[k]`, a `KeyError` if the key is missing
  unfoldable pub item : Dict N → String → Result (Json N)
  item empty k = err (other_exception "KeyError")
  item (entry j v d) k = if j == k then ok v else item d k

  -- `d[k] = v`
  unfoldable pub put : String → Json N → Dict N → Dict N
  put k v empty = entry k v empty
  put k v (entry j w d) = if j == k then entry j v d else entry j w (put k v d)

  -- `x[k]` with a text `k`: a `TypeError` unless `x` is a dict
  unfoldable pub subscript : Json N → String → Result (Json N)
  unfolding item
  subscript (obj d) k = item d k
  subscript _ k = err (other_exception "TypeError")

  abbrev pub items_of : List (Json N) → Items N
  items_of [] = nil
  items_of (x ∷ xs) = cons x (items_of xs)

  abbrev pub list_of : Items N → List (Json N)
  list_of nil = []
  list_of (cons x xs) = x ∷ list_of xs

  pub list_of-items_of : (xs : List (Json N)) → list_of (items_of xs) ≡ xs
  list_of-items_of [] = refl
  list_of-items_of (x ∷ xs) = λ i. x ∷ list_of-items_of xs i
