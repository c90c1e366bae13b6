-- ===== src/EtcdClient/Prefix.antt =====
-- daemon/etcd_client.py: the end of the range of a prefix scan.
use milvus_onprem.Base.{
  ℕ, suc, Text, starts_with, strip_prefix, text_leb, Bool, true, false, ◌==◌, ◌&&◌, [], ◌∷◌, ◌≡◌,
  arith, if◌then◌else◌,
}

-- `_prefix_end`: the last character becomes the next one.
unfoldable pub prefix_end : Text → Text
prefix_end [] = []
prefix_end (c ∷ p) = let rest = prefix_end p in elim p [ [] ↦ suc c ∷ [] | _ ↦ c ∷ rest ]

-- `text_leb` read as an order of keys: an etcd range `[from, to)`.
abbrev pub in_range : Text → Text → Text → Bool
in_range start stop k = text_leb start k && (if text_leb stop k then false else true)

one_char : (c d : ℕ) (k : Text) → in_range (c ∷ []) (suc c ∷ []) (d ∷ k) ≡ (c == d)
unfolding text_leb
one_char c d k = ground arith

-- The range of a scan is the prefix: a key is in `[prefix, _prefix_end(prefix))` exactly if it starts
-- with the prefix, for a prefix that is not empty.
pub prefix_end-range :
    (c : ℕ) (p k : Text) → in_range (c ∷ p) (prefix_end (c ∷ p)) k ≡ starts_with (c ∷ p) k
unfolding prefix_end text_leb starts_with strip_prefix
prefix_end-range c p [] = ground arith
prefix_end-range c [] (d ∷ k) = ground (arith, one_char c d k)
prefix_end-range c (b ∷ p) (d ∷ k) = ground (arith, prefix_end-range b p k)
