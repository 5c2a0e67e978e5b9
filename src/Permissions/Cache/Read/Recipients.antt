-- ===== src/Permissions/Cache/Read/Recipients.antt =====
-- The loops of `users_for_unit`: what they collect, and that no user is collected twice.
use alert_distributor.Base.{
  ℕ, ◌≡◌, refl, Bool, ◌&&◌, ◌||◌, List, [], ◌∷◌, map, arith, nat_eq, pair_eq, ◌==◌, if◌then◌else◌,
  contains, contains-cons, contains-nil,
}
use alert_distributor.HashMap.{
  HashMap, HashSet, get, insert, keys, keys_where, contains_key, get-insert, IsMap, insert-IsMap,
  contains-keys, contains-keys_where-le,
}
use alert_distributor.Sort.{IsDistinct}
use alert_distributor.Permissions.Cache.Read.{insert_where}

pub contains_key-insert_where {κ} :
    {V : Type κ} (p : ℕ → V → Bool) (m : HashMap ℕ V) (set : HashSet ℕ) (x : ℕ)
    → contains_key x (insert_where p m set) ≡ (contains x (keys_where p m) || contains_key x set)
unfolding insert_where
contains_key-insert_where p [] set x = rw (contains-nil x) refl
contains_key-insert_where p ((k, v) ∷ m) set x = ground (
  arith,
  contains_key-insert_where p m (if p k v then insert k tt set else set) x,
  contains-cons x k (keys_where p m),
  get-insert k x tt set,
)

pub insert_where-IsMap {κ} :
    {V : Type κ} (p : ℕ → V → Bool) (m : HashMap ℕ V) (set : HashSet ℕ)
    → IsMap set
    → IsMap (insert_where p m set)
unfolding insert_where
insert_where-IsMap p [] set h = h
insert_where-IsMap p ((k, v) ∷ m) set h =
    insert_where-IsMap p m (if p k v then insert k tt set else set)
      (ground (arith, insert-IsMap k tt set h))

-- A test of the key alone.
pub contains-keys_where_key {κ} :
    {V : Type κ} (p : ℕ → Bool) (m : HashMap ℕ V) (x : ℕ)
    → contains x (keys_where (λ k _. p k) m) ≡ (p x && contains_key x m)
unfolding get
contains-keys_where_key p [] x = ground (arith, contains-nil x)
contains-keys_where_key p ((k, v) ∷ m) x =
    ground (arith, contains-keys_where_key p m x, contains-cons x k (keys_where (λ k _. p k) m))

pub contains-pairs :
    (org o u : ℕ) (users : List ℕ)
    → contains {A = ℕ × ℕ} (o, u) (map (λ user. (org, user)) users) ≡ (org == o && contains u users)
contains-pairs org o u [] = ground (arith, contains-nil {A = ℕ × ℕ} (o, u), contains-nil u)
contains-pairs org o u (x ∷ xs) = ground (
  arith,
  contains-cons {A = ℕ × ℕ} (o, u) (org, x) (map (λ user. (org, user)) xs),
  contains-cons u x xs,
  contains-pairs org o u xs,
)

pub pairs-IsDistinct :
    (org : ℕ) (users : List ℕ)
    → IsDistinct users
    → IsDistinct {A = ℕ × ℕ} (map (λ user. (org, user)) users)
pairs-IsDistinct org [] h = tt
pairs-IsDistinct org (x ∷ xs) h =
    ground (arith, contains-pairs org org x xs, pairs-IsDistinct org xs)

pub keys-IsDistinct {κ} : {V : Type κ} (m : HashMap ℕ V) → IsMap m → IsDistinct (keys m)
keys-IsDistinct [] h = tt
keys-IsDistinct ((k, v) ∷ m) h = ground (arith, contains-keys k m, keys-IsDistinct m)

pub keys_where-IsDistinct {κ} :
    {V : Type κ} (p : ℕ → V → Bool) (m : HashMap ℕ V) → IsMap m → IsDistinct (keys_where p m)
keys_where-IsDistinct p [] h = tt
keys_where-IsDistinct p ((k, v) ∷ m) h =
    ground (arith, contains-keys_where-le k p m, keys_where-IsDistinct p m)
