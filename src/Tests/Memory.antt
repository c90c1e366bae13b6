-- ===== src/Tests/Memory.antt =====
-- An etcd in memory, whose calls go through but for the membership calls, as a flag says, with the clock
-- and the files of a machine beside it.
use milvus_onprem.Base.{
  ℕ, Text, Dict, IsDict, lookup, insert, insert-IsDict, erase, has_key, lookup-insert, lookup-erase,
  same_iff, same_refl, starts_with, Bool, true, false, none, some, List, [], ◌∷◌, ◌++◌, ◌≡◌, ◌≢◌,
  refl, subst, inl, inr, arith, Bool-cases, if◌then◌else◌, Result, ok, err, unavailable,
}
use milvus_onprem.Etcd.{Etcd, EtcdLaws, Member}

pub record Content : Type 0 where
  pub keys : Dict Text
  pub members : List Member
  pub clock : ℕ
  pub files : Dict Text

unfoldable pub scan : Text → Dict Text → Dict Text
scan p [] = []
scan p ((k, v) ∷ d) = let rest = scan p d in if starts_with p k then insert k v rest else rest

scan-IsDict : (p : Text) (d : Dict Text) → IsDict (scan p d)
unfolding scan
scan-IsDict p [] = tt
scan-IsDict p ((k, v) ∷ d) = elim (Bool-cases (starts_with p k)) [
  | inl e ↦ rw e (insert-IsDict k v (scan p d) (scan-IsDict p d))
  | inr e ↦ rw e (scan-IsDict p d)
]

lookup-scan :
    (p k : Text) (d : Dict Text)
    → lookup k (scan p d) ≡ (if starts_with p k then lookup k d else none)
unfolding scan lookup
lookup-scan p k [] = ground arith
lookup-scan p k ((j, v) ∷ d) = elim (Bool-cases (starts_with p j)) [
  | inl e ↦ rw e (ground (arith, lookup-insert j k v (scan p d), lookup-scan p k d, same_iff j k))
  | inr e ↦ rw e (ground (arith, lookup-scan p k d, same_iff j k))
]

-- `adds` says whether members can be added.
abbrev pub memory : Bool → Etcd
memory adds = record {
  State = Content;
  find = λ s k. lookup k s.keys;
  members = λ s. s.members;
  get = λ k s. (ok (lookup k s.keys), s);
  get_prefix = λ p s. (ok (scan p s.keys), s);
  put = λ k v s. (ok tt, record s { keys = insert k v s.keys });
  delete = λ k s. (ok tt, record s { keys = erase k s.keys });
  put_if_absent = λ k v s.
      if has_key k s.keys then (ok false, s) else (ok true, record s { keys = insert k v s.keys });
  member_list = λ s. (ok s.members, s);
  member_add = λ url s.
      if adds
      then (
        ok tt,
        record s { members = s.members ++ record { name = []; id = 7; peer_urls = url ∷ [] } ∷ [] },
      )
      else (err unavailable, s);
  member_remove = λ id s. (ok tt, s);
}

get_of_ok : {A : Type 0} (a b : A) → ◌≡◌ {A = Result A} (ok a) (ok b) → a ≡ b
get_of_ok a b h = cc

module _ (adds : Bool) where
  insert_self : (k v : Text) (d : Dict Text) → lookup k (insert k v d) ≡ some v
  insert_self k v d = ground (arith, lookup-insert k k v d, same_refl k)

  insert_other : (k v j : Text) (d : Dict Text) → j ≢ k → lookup j (insert k v d) ≡ lookup j d
  insert_other k v j d ne = ground (arith, lookup-insert k j v d, same_iff k j)

  pub memory-EtcdLaws : EtcdLaws (memory adds)
  memory-EtcdLaws = record {
    get_keeps = λ k j s. refl;
    get_ok = λ k s h. ground (arith, h);
    get_prefix_keeps = λ p j s. refl;
    get_prefix_ok = λ p s h.
        subst
          (λ e.
            IsDict e
            × ((k : Text) → lookup k e ≡ (if starts_with p k then lookup k s.keys else none)))
          (get_of_ok (scan p s.keys) _ h) (scan-IsDict p s.keys, λ k. lookup-scan p k s.keys);
    put_ok = λ k v s h. insert_self k v s.keys;
    put_other = λ k v j s ne. insert_other k v j s.keys ne;
    put_either = λ k v s. inr (insert_self k v s.keys);
    delete_ok = λ k s h. ground (arith, lookup-erase k k s.keys, same_refl k);
    delete_other = λ k j s ne. ground (arith, lookup-erase k j s.keys, same_iff k j);
    delete_either = λ k s. inr (ground (arith, lookup-erase k k s.keys, same_refl k));
    put_if_absent_true = λ k v s h. (ground arith, ground (arith, insert_self k v s.keys));
    put_if_absent_false = λ k v s h e. ground arith;
    put_if_absent_taken = λ k v w s h. ground arith;
    put_if_absent_other = λ k v j s ne. ground (arith, insert_other k v j s.keys ne);
    member_list_keeps = λ j s. refl;
    member_add_keeps = λ url j s. ground arith;
    member_remove_keeps = λ id j s. refl;
    get_members = λ k s. refl;
    get_prefix_members = λ p s. refl;
    put_members = λ k v s. refl;
    delete_members = λ k s. refl;
    put_if_absent_members = λ k v s. ground arith;
    member_list_members = λ s. refl;
  }
