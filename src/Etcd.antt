-- ===== src/Etcd.antt =====
-- The methods of daemon/etcd_client.py that the other parts of the daemon call, as an interface,
-- and what they rely on: etcd is a service outside the repository.
use milvus_onprem.Base.{
  ℕ, Text, Dict, IsDict, lookup, Bool, true, false, Option, none, some, List, ◌≡◌, ◌≢◌, ◌⊎◌,
  if◌then◌else◌, starts_with, Exec, ok,
}

-- The part of a member entry that is read: its name, which is empty until its etcd has started.
pub record Member : Type 0 where
  pub name : Text
  pub id : ℕ
  pub peer_urls : List Text

-- A state holds etcd's content and all that decides how the next calls end. A call that does not go
-- through raises.
pub record Etcd : Type 1 where
  pub State : Type 0
  pub find : State → Text → Option Text
  pub members : State → List Member
  pub get : Text → Exec State (Option Text)
  pub get_prefix : Text → Exec State (Dict Text)
  pub put : Text → Text → Exec State (Unit {0})
  pub delete : Text → Exec State (Unit {0})
  pub put_if_absent : Text → Text → Exec State Bool
  pub member_list : Exec State (List Member)
  pub member_add : Text → Exec State (Unit {0})
  pub member_remove : ℕ → Exec State (Unit {0})

-- What the callers rely on: a read changes no key and, where it returns, says what is there; a write
-- touches only its own key, and where it returns it has been made; where a write raises it may have
-- been made or not. `put_if_absent` never replaces a value; where it returns `true` the key was free,
-- where it returns `false` the key is taken. The membership calls touch no key, and only they change
-- the members.
pub record EtcdLaws (e : Etcd) : Type 0 where
  pub get_keeps : (k j : Text) (s : e.State) → e.find (e.get k s).1 j ≡ e.find s j
  pub get_ok : (k : Text) (s : e.State) {v : Option Text} → (e.get k s).0 ≡ ok v → e.find s k ≡ v
  pub get_prefix_keeps : (p j : Text) (s : e.State) → e.find (e.get_prefix p s).1 j ≡ e.find s j
  pub get_prefix_ok :
      (p : Text) (s : e.State) {d : Dict Text}
      → (e.get_prefix p s).0 ≡ ok d
      → IsDict d × ((k : Text) → lookup k d ≡ (if starts_with p k then e.find s k else none))
  pub put_ok :
      (k v : Text) (s : e.State) → (e.put k v s).0 ≡ ok tt → e.find (e.put k v s).1 k ≡ some v
  pub put_other : (k v j : Text) (s : e.State) → j ≢ k → e.find (e.put k v s).1 j ≡ e.find s j
  pub put_either :
      (k v : Text) (s : e.State)
      → (e.find (e.put k v s).1 k ≡ e.find s k) ⊎ (e.find (e.put k v s).1 k ≡ some v)
  pub delete_ok :
      (k : Text) (s : e.State) → (e.delete k s).0 ≡ ok tt → e.find (e.delete k s).1 k ≡ none
  pub delete_other : (k j : Text) (s : e.State) → j ≢ k → e.find (e.delete k s).1 j ≡ e.find s j
  pub delete_either :
      (k : Text) (s : e.State)
      → (e.find (e.delete k s).1 k ≡ e.find s k) ⊎ (e.find (e.delete k s).1 k ≡ none)
  pub put_if_absent_true :
      (k v : Text) (s : e.State)
      → (e.put_if_absent k v s).0 ≡ ok true
      → (e.find s k ≡ none) × (e.find (e.put_if_absent k v s).1 k ≡ some v)
  pub put_if_absent_false :
      (k v : Text) (s : e.State)
      → (e.put_if_absent k v s).0 ≡ ok false
      → e.find (e.put_if_absent k v s).1 k ≢ none
  pub put_if_absent_taken :
      (k v w : Text) (s : e.State)
      → e.find s k ≡ some w
      → e.find (e.put_if_absent k v s).1 k ≡ some w
  pub put_if_absent_other :
      (k v j : Text) (s : e.State) → j ≢ k → e.find (e.put_if_absent k v s).1 j ≡ e.find s j
  pub member_list_keeps : (j : Text) (s : e.State) → e.find (e.member_list s).1 j ≡ e.find s j
  pub member_add_keeps : (url j : Text) (s : e.State) → e.find (e.member_add url s).1 j ≡ e.find s j
  pub member_remove_keeps :
      (id : ℕ) (j : Text) (s : e.State) → e.find (e.member_remove id s).1 j ≡ e.find s j
  pub get_members : (k : Text) (s : e.State) → e.members (e.get k s).1 ≡ e.members s
  pub get_prefix_members : (p : Text) (s : e.State) → e.members (e.get_prefix p s).1 ≡ e.members s
  pub put_members : (k v : Text) (s : e.State) → e.members (e.put k v s).1 ≡ e.members s
  pub delete_members : (k : Text) (s : e.State) → e.members (e.delete k s).1 ≡ e.members s
  pub put_if_absent_members :
      (k v : Text) (s : e.State) → e.members (e.put_if_absent k v s).1 ≡ e.members s
  pub member_list_members : (s : e.State) → e.members (e.member_list s).1 ≡ e.members s
