-- ===== src/Dht/Values.antt =====
-- The values of a DHT node, and the searches for them: pkg/dht/store.go.
use edgesim_p2p.Base.{
  ℕ, ◌≡◌, ◌≢◌, refl, sym, ap, ◌∙◌, Bool, true, false, List, [], ◌∷◌, ◌++◌, String, Option, some,
  if◌then◌else◌, All, Bool-cases, inl, inr,
}
use edgesim_p2p.Base.Int.{ℤ}
use edgesim_p2p.Base.Keys.{text_key, same_self, same_ne}
use edgesim_p2p.Dht.Ids.{NodeId, Peer}
use edgesim_p2p.Dht.Routing.{RoutingTable}
use edgesim_p2p.Dht.Lookup.{LookupError, FindNodeOptions, Found, found, failed, iterative_find_node}
use edgesim_p2p.Dht.Store.{
  Value, DhtNode, lookup, assign, store_local, find_value_local, handle_store, handle_find_value,
  held, key_to_id, StoreResult, stored, broken_off, store_failed, store_at, store_found,
  iterative_store,
}

pub lookup-assign_self :
    (k : String) (v : Value) (s : List (String × Value)) → lookup k (assign k v s) ≡ some v
unfolding lookup assign
lookup-assign_self k v [] = rw (same_self k) refl
lookup-assign_self k v ((j, w) ∷ s) = elim (Bool-cases (text_key.same j k)) [
  | inl here ↦ rw here (rw (same_self k) refl)
  | inr next ↦ rw next (rw next (lookup-assign_self k v s))
]

pub lookup-assign_ne :
    (i k : String) (v : Value) (s : List (String × Value))
    → i ≢ k
    → lookup i (assign k v s) ≡ lookup i s
unfolding lookup assign
lookup-assign_ne i k v [] h = rw (same_ne k i (λ e. h (sym e))) refl
lookup-assign_ne i k v ((j, w) ∷ s) h = elim (Bool-cases (text_key.same j k)) [
  | inl here ↦
      let other : text_key.same j i ≡ false =
        same_ne j i (λ e. h (sym e ∙ (text_key.same_iff j k).0 here)) in
      rw (here, other) (rw (same_ne k i (λ e. h (sym e))) refl)
  | inr next ↦ rw next (
      ap (λ (o : Option Value). if text_key.same j i then some w else o)
        (lookup-assign_ne i k v s h))
]

-- STORE at a node whose call is not done puts the value under the key, in place of an older one: then
-- FIND_VALUE for the key answers with it, and for any other key as before. The table stays.
pub handle_store_lem :
    (sha256 : String → List ℕ) (key : String) (v : Value) (n : DhtNode)
    → (n' : DhtNode) × (handle_store false key v n ≡ some n')
      × ((k : ℤ) → handle_find_value sha256 false key k n' ≡ some (held v))
      × ((other : String) (k : ℤ)
          → other ≢ key
          → handle_find_value sha256 false other k n' ≡ handle_find_value sha256 false other k n)
      × (n'.rt ≡ n.rt)
unfolding handle_store store_local handle_find_value find_value_local
handle_store_lem sha256 key v n = (
  record n { store = assign key v n.store },
  refl,
  λ k. rw (lookup-assign_self key v n.store) refl,
  λ other k ne. rw (lookup-assign_ne other key v n.store ne) refl,
  refl,
)

-- What `IterativeStore` does with the closest peers, on each branch.
pub data Stores (send : Peer → Bool) : Found → StoreResult → Type 0 where
  no_search : (e : LookupError) → Stores send (failed e) (store_failed e)
  everywhere :
      (closest : List Peer)
      → All (λ p. send p ≡ true) closest
      → Stores send (found closest) (stored closest)
  stopped :
      (front : List Peer) (p : Peer) (back : List Peer)
      → All (λ q. send q ≡ true) front
      → send p ≡ false
      → Stores send (found (front ++ p ∷ back)) (broken_off (front ++ p ∷ back) (front ++ p ∷ []))

-- The calls of `store_at`.
data Calls (send : Peer → Bool) : List Peer → List Peer × Bool → Type 0 where
  all_took : (peers : List Peer) → All (λ p. send p ≡ true) peers → Calls send peers (peers, true)
  one_failed :
      (front : List Peer) (p : Peer) (back : List Peer)
      → All (λ q. send q ≡ true) front
      → send p ≡ false
      → Calls send (front ++ p ∷ back) (front ++ p ∷ [], false)

Calls-next :
    (send : Peer → Bool) (p : Peer) (peers : List Peer) (r : List Peer × Bool)
    → send p ≡ true
    → Calls send peers r
    → Calls send (p ∷ peers) (p ∷ r.0, r.1)
Calls-next send p peers r took (all_took ps all) = all_took (p ∷ ps) (took, all)
Calls-next send p peers r took (one_failed front q back all fails) =
    one_failed (p ∷ front) q back (took, all) fails

store_at-Calls : (send : Peer → Bool) (peers : List Peer) → Calls send peers (store_at send peers)
unfolding store_at
store_at-Calls send [] = all_took [] tt
store_at-Calls send (p ∷ peers) = elim (Bool-cases (send p)) [
  | inl took ↦
      rw took (Calls-next send p peers (store_at send peers) took (store_at-Calls send peers))
  | inr fails ↦ rw fails (one_failed [] p peers tt fails)
]

Stores-Calls :
    (send : Peer → Bool) (closest : List Peer) (r : List Peer × Bool)
    → Calls send closest r
    → Stores send (found closest) (if r.1 then stored closest else broken_off closest r.0)
Stores-Calls send closest r (all_took peers all) = everywhere peers all
Stores-Calls send closest r (one_failed front p back all fails) = stopped front p back all fails

store_found-Stores : (send : Peer → Bool) (f : Found) → Stores send f (store_found f send)
unfolding store_found
store_found-Stores send (failed e) = no_search e
store_found-Stores send (found closest) =
    Stores-Calls send closest (store_at send closest) (store_at-Calls send closest)

-- With a table and both requesters, `IterativeStore` searches the peers closest to the key's hash and
-- calls them in turn. It succeeds exactly if all of them take the value; else the first one that does
-- not ends it: those before it have the value, those behind it are not called.
pub iterative_store-Stores :
    (sha256 : String → List ℕ) (order : ℕ → List Peer → List Peer)
    (find : ℕ → Peer → NodeId → Option (List Peer)) (send : Peer → String → Value → Bool)
    (cancelled : ℕ → Bool) (rt : RoutingTable) (key : String) (v : Value) (opts : FindNodeOptions)
    → Stores
        (λ p. send p key v)
        (iterative_find_node order (some find) cancelled (some rt) (key_to_id sha256 key) opts)
        (iterative_store sha256 order (some find) (some send) cancelled (some rt) key v opts)
unfolding iterative_store
iterative_store-Stores sha256 order find send cancelled rt key v opts =
    store_found-Stores (λ p. send p key v)
      (iterative_find_node order (some find) cancelled (some rt) (key_to_id sha256 key) opts)
