-- ===== src/Store/Listing.antt =====
-- internal/store/registry.go: List and ListEnabled, whose rows come in the order of their keys.
pub mod Rows
use Prim.Native.Nat.{Ordering}
use Prim.Native.String.{compare}
use labeler_relay.Prelude.{
  String, Bool, true, false, List, [], ◌∷◌, if◌then◌else◌, Result, ok, ◌>>◌, Fault, attempt, select,
}
use labeler_relay.Store.Registry.{Labeler, Registry}

abbrev pub comes_first : String → String → Bool
comes_first s t = elim (compare s t) [ Ordering.lt ↦ true | _ ↦ false ]

-- ORDER BY did
unfoldable pub insert_by_did : Labeler → List Labeler → List Labeler
insert_by_did l [] = l ∷ []
insert_by_did l (x ∷ xs) =
    let rest = insert_by_did l xs in if comes_first x.did l.did then x ∷ rest else l ∷ x ∷ xs

unfoldable pub order_by_did : List Labeler → List Labeler
unfolding insert_by_did
order_by_did [] = []
order_by_did (l ∷ ls) = insert_by_did l (order_by_did ls)

unfoldable pub list : Fault → Registry → Result (List Labeler)
unfolding order_by_did
list f db = do attempt f "failed to list labelers"; ok (order_by_did db)

unfoldable pub list_enabled : Fault → Registry → Result (List Labeler)
unfolding order_by_did
list_enabled f db = do
  attempt f "failed to list enabled labelers"
  ok (order_by_did (select (λ l. l.enabled) db))
