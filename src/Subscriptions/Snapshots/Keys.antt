-- ===== src/Subscriptions/Snapshots/Keys.antt =====
-- `neighborKey`, and the order of the stored neighbors: by the type, then by the name.
use unifabric.Common.{
  String, Bool, List, Distinct, Increasing, sort_by, Increasing-sort_by, true, false, not, ◌&&◌,
  string_eq, ◌==◌, ==_iff, if◌then◌else◌, Eq, string_less, string_less_irrefl, string_less_trans,
  string_less_total, ◌≡◌, ◌↔◌, arith, Bool-cases, inl, inr,
}

pub record NeighborKey : Type 0 where
  pub remote_system_type : String
  pub remote_system_name : String

abbrev pub same_key : NeighborKey → NeighborKey → Bool
same_key a b =
    a.remote_system_type == b.remote_system_type && a.remote_system_name == b.remote_system_name

pub same_key_iff : (a b : NeighborKey) → (same_key a b ≡ true) ↔ (a ≡ b)
same_key_iff a b = ground (
  arith,
  ==_iff a.remote_system_type b.remote_system_type,
  ==_iff a.remote_system_name b.remote_system_name,
)

instance abbrev pub key_eq : Eq NeighborKey
key_eq = record { beq = same_key; beq_iff = same_key_iff }

unfoldable pub key_less : NeighborKey → NeighborKey → Bool
key_less a b =
    if not (a.remote_system_type == b.remote_system_type)
    then string_less a.remote_system_type b.remote_system_type
    else string_less a.remote_system_name b.remote_system_name

key_less_irrefl : (a : NeighborKey) → key_less a a ≡ false
unfolding key_less
key_less_irrefl a = ground (
  arith,
  ==_iff a.remote_system_type a.remote_system_type,
  string_less_irrefl a.remote_system_name,
)

no_return : (s t : String) → string_less s t ≡ true → string_less t s ≡ false
no_return s t h = elim (Bool-cases (string_less t s)) [
  | inl k ↦ absurd (let q = string_less_irrefl s in let r = string_less_trans s t s h k in cc)
  | inr k ↦ k
]

key_less_trans :
    (a b c : NeighborKey) → key_less a b ≡ true → key_less b c ≡ true → key_less a c ≡ true
unfolding key_less
key_less_trans a b c h k = ground (
  arith,
  ==_iff a.remote_system_type b.remote_system_type,
  ==_iff b.remote_system_type c.remote_system_type,
  ==_iff a.remote_system_type c.remote_system_type,
  string_less_trans a.remote_system_type b.remote_system_type c.remote_system_type,
  string_less_trans a.remote_system_name b.remote_system_name c.remote_system_name,
  no_return a.remote_system_type b.remote_system_type,
)

key_less_total : (a b : NeighborKey) → key_less a b ≡ false → key_less b a ≡ false → a ≡ b
unfolding key_less
key_less_total a b h k = ground (
  arith,
  ==_iff a.remote_system_type b.remote_system_type,
  ==_iff b.remote_system_type a.remote_system_type,
  string_less_total a.remote_system_type b.remote_system_type,
  string_less_total a.remote_system_name b.remote_system_name,
)

-- A list of distinct keys is sorted strictly.
pub Increasing-keys :
    (xs : List NeighborKey) → Distinct xs → Increasing key_less (sort_by key_less xs)
Increasing-keys = Increasing-sort_by (record {
  less = key_less;
  irrefl = key_less_irrefl;
  trans = key_less_trans;
  total = key_less_total;
})
