-- ===== src/Raftstore/Engine.antt =====
-- kv/util/engine_util: the engine with the pairs and the region's states, and batches of writes to it.
-- The pairs' keys begin with the name of a column family, so that no state shares a key with them.
use tinykv.Prelude.{ℕ, ◌∷◌, ◌++◌, List, [], Option, none, some, if◌then◌else◌, Bytes, insert, erase}
use tinykv.Raftstore.Cmd.{Region}
use tinykv.Scheduler.Regions.Keys.{same, is_empty}

pub record ApplyState : Type 0 where
  pub applied_index : ℕ
  pub truncated_index : ℕ
  pub truncated_term : ℕ

pub data PeerState : Type 0 where
  normal tombstone : PeerState

-- The value of a key, and the states by the region's identifier.
pub record Engine : Type 0 where
  pub values : Bytes → Option Bytes
  pub apply_states : List (ℕ × ApplyState)
  pub region_states : List (ℕ × (PeerState × Region))

pub data Write : Type 0 where
  set : (key : Bytes) (value : Bytes) → Write
  delete : (key : Bytes) → Write
  set_apply_state : (region_id : ℕ) (state : ApplyState) → Write
  delete_apply_state : (region_id : ℕ) → Write
  set_region_state : (region_id : ℕ) (state : PeerState) (region : Region) → Write
  delete_region_state : (region_id : ℕ) → Write

-- KeyWithCF: 95 is '_'.
unfoldable pub key_with_cf : Bytes → Bytes → Bytes
key_with_cf cf key = (cf ++ (95 ∷ [])) ++ key

unfoldable pub set_cf : List Write → Bytes → Bytes → Bytes → List Write
unfolding key_with_cf
set_cf wb cf key value = wb ++ (set (key_with_cf cf key) value ∷ [])

unfoldable pub delete_cf : List Write → Bytes → Bytes → List Write
unfolding key_with_cf
delete_cf wb cf key = wb ++ (delete (key_with_cf cf key) ∷ [])

unfoldable pub with_value : Bytes → Option Bytes → (Bytes → Option Bytes) → Bytes → Option Bytes
with_value key value values k = if same k key then value else values k

-- An empty value deletes the key.
unfoldable pub write : Engine → Write → Engine
unfolding with_value
write e (set key value) = record e {
  values = with_value key (if is_empty value then none else some value) e.values;
}
write e (delete key) = record e { values = with_value key none e.values }
write e (set_apply_state id state) = record e { apply_states = insert id state e.apply_states }
write e (delete_apply_state id) = record e { apply_states = erase id e.apply_states }
write e (set_region_state id state region) = record e {
  region_states = insert id (state, region) e.region_states;
}
write e (delete_region_state id) = record e { region_states = erase id e.region_states }

-- WriteToDB, in one transaction that does not fail.
unfoldable pub write_to_db : List Write → Engine → Engine
unfolding write
write_to_db [] e = e
write_to_db (w ∷ ws) e = write_to_db ws (write e w)

unfoldable pub get_cf : Engine → Bytes → Bytes → Option Bytes
unfolding key_with_cf
get_cf e cf key = e.values (key_with_cf cf key)
