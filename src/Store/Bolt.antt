-- ===== src/Store/Bolt.antt =====
-- go.etcd.io/bbolt, which agent/store/store.go stands on: a bucket as the store uses it, with the
-- behaviour that bbolt documents. Keys are kept in byte order, and `pairs` is a bucket's content in
-- the order of Cursor.Last followed by Cursor.Prev, the greatest key first. A transaction that
-- bbolt itself fails (a full disk) changes nothing and is not modelled.
pub mod Listed
pub mod KeyOrder
use hyperv_control_plane.Prelude.{
  ℕ, ◌+◌, ◌%◌, ◌^◌, ◌≡◌, Bool, true, false, not, Option, none, some, List, [], ◌∷◌, select, All,
  text_eq, if◌then◌else◌,
}
use hyperv_control_plane.Store.Bytes.{Bytes, bytes_lt}

module _ {V : Type 0} where
  -- The greatest key first, and no key twice.
  abbrev pub IsDescending : List (Bytes × V) → Type 0
  IsDescending [] = Unit
  IsDescending (p ∷ ps) = All (λ q. bytes_lt q.0 p.0 ≡ true) ps × IsDescending ps

  unfoldable pub lookup : Bytes → List (Bytes × V) → Option V
  lookup k [] = none
  lookup k ((j, v) ∷ ps) = if text_eq j k then some v else lookup k ps

  -- A new key goes where its order puts it; the value of a key that is there is replaced.
  unfoldable pub insert : Bytes → V → List (Bytes × V) → List (Bytes × V)
  insert k v [] = (k, v) ∷ []
  insert k v ((j, w) ∷ ps) =
      let rest = insert k v ps in
      if text_eq j k
      then (k, v) ∷ ps
      else if bytes_lt j k
      then (k, v) ∷ (j, w) ∷ ps
      else (j, w) ∷ rest

  unfoldable pub erase : Bytes → List (Bytes × V) → List (Bytes × V)
  erase k ps = select (λ p. not (text_eq p.0 k)) ps

pub record Bolt (V : Type 0) : Type 1 where
  pub Bucket : Type 0
  pub pairs : Bucket → List (Bytes × V)
  pub sequence : Bucket → ℕ
  pub get : Bucket → Bytes → Option V
  pub put : Bucket → Bytes → V → Bucket
  pub delete : Bucket → Bytes → Bucket
  -- NextSequence: the identifier that it returns is the sequence of the new bucket.
  pub next_sequence : Bucket → Bucket
  pub pairs-IsDescending : (b : Bucket) → IsDescending (pairs b)
  pub get_lem : (b : Bucket) (k : Bytes) → get b k ≡ lookup k (pairs b)
  pub pairs-put : (b : Bucket) (k : Bytes) (v : V) → pairs (put b k v) ≡ insert k v (pairs b)
  pub pairs-delete : (b : Bucket) (k : Bytes) → pairs (delete b k) ≡ erase k (pairs b)
  pub pairs-next_sequence : (b : Bucket) → pairs (next_sequence b) ≡ pairs b
  pub sequence-put : (b : Bucket) (k : Bytes) (v : V) → sequence (put b k v) ≡ sequence b
  pub sequence-delete : (b : Bucket) (k : Bytes) → sequence (delete b k) ≡ sequence b
  pub sequence-next_sequence : (b : Bucket) → sequence (next_sequence b) ≡ (sequence b + 1) % 2 ^ 64
