-- ===== src/Heartbeat/Hosts.antt =====
-- The number of processes on each host, as `to_dict` reports it.
use vumi.Base.{
  ℕ, ◌+◌, String, ◌≡◌, refl, none, some, List, [], ◌∷◌, arith, ◌==◌, str_eq, eq_iff, if◌then◌else◌,
}
use vumi.Base.Dict.{Dict, lookup, lookup_or, insert, lookup-insert}
use vumi.Heartbeat.Worker.{Instance, zero_hosts, count_hosts, compute_host_info}

abbrev pub on_host : String → List Instance → ℕ
on_host h [] = 0
on_host h (i ∷ s) = (if str_eq i.hostname h then 1 else 0) + on_host h s

lookup-zero_hosts :
    (h : String) (s : List Instance) (d : Dict ℕ)
    → lookup h (zero_hosts s d) ≡ (if on_host h s == 0 then lookup h d else some 0)
unfolding zero_hosts
lookup-zero_hosts h [] d = refl
lookup-zero_hosts h (i ∷ s) d = ground (
  arith,
  lookup-zero_hosts h s (insert i.hostname 0 d),
  lookup-insert i.hostname h 0 d,
  eq_iff i.hostname h,
)

lookup-count_hosts :
    (h : String) (s : List Instance) (d : Dict ℕ)
    → lookup h (count_hosts s d)
      ≡ (if on_host h s == 0 then lookup h d else some (lookup_or h d 0 + on_host h s))
unfolding count_hosts
lookup-count_hosts h [] d = refl
lookup-count_hosts h (i ∷ s) d =
    let n = lookup_or i.hostname d 0 + 1 in
    ground (
      arith,
      lookup-count_hosts h s (insert i.hostname n d),
      lookup-insert i.hostname h n d,
      eq_iff i.hostname h,
    )

-- A host is reported exactly if a process of the snapshot is on it, with the number of those.
pub compute_host_info_lem :
    (h : String) (s : List Instance)
    → lookup h (compute_host_info s) ≡ (if on_host h s == 0 then none else some (on_host h s))
unfolding compute_host_info lookup
compute_host_info_lem h s =
    ground (arith, lookup-count_hosts h s (zero_hosts s []), lookup-zero_hosts h s [])
