-- ===== src/Logs/Tests.antt =====
-- A log store of two entries.
use caddy_reverse_proxy.Common.{ℕ, ◌≡◌, false, arith, Option, some, []}
use caddy_reverse_proxy.Common.Int.{pos}
use caddy_reverse_proxy.Text.{codes}
use caddy_reverse_proxy.Logs.{
  Entry, Store, new_store, add, clean, add_encoded, append, new_sized, must_evict, evict, read_last,
}
use caddy_reverse_proxy.Logs.Queue.{newest, take}
use caddy_reverse_proxy.Logs.Ring.{contents, IsRing}
use caddy_reverse_proxy.Logs.Ring.Evict.{evict-ends}
use caddy_reverse_proxy.Logs.Ring.Add.{pushed, add-contents, new_store-IsRing}
use caddy_reverse_proxy.Logs.Ring.Read.{IsAllowed, read_last-newest}

abbrev hello : Entry (Unit {0})
hello = record {
  time = 0;
  source = codes "app";
  level = codes " WARN";
  message = codes "hello";
  fields = tt;
}

-- The length of the JSON of an entry, here of one size.
abbrev encoded : Entry (Unit {0}) → Option ℕ
encoded e = some 64

abbrev two : Store (Unit {0})
two = new_store tt (pos 2)

new_store-IsRing_example :
    IsRing tt (new_store tt (pos 2)) × (contents tt (new_store tt (pos 2)) ≡ [])
new_store-IsRing_example = new_store-IsRing tt (pos 2)

two-IsRing : IsRing tt two
two-IsRing = (new_store-IsRing tt (pos 2)).0

add-contents_example :
    IsRing tt (add tt encoded 7 hello two)
    × (contents tt (add tt encoded 7 hello two)
        ≡ pushed tt two.limit two.byte_limit
            (encoded (clean tt 7 hello))
            (clean tt 7 hello)
            (contents tt two))
add-contents_example = add-contents tt encoded 7 hello two two-IsRing

added-IsRing : IsRing tt (add tt encoded 7 hello two)
added-IsRing = (add-contents tt encoded 7 hello two two-IsRing).0

read_last-newest_example :
    (n : ℕ) × IsAllowed (pos 5) (add tt encoded 7 hello two).limit n
    × (read_last tt (pos 5) (add tt encoded 7 hello two)
        ≡ take n (newest (contents tt (add tt encoded 7 hello two))))
read_last-newest_example = read_last-newest tt (add tt encoded 7 hello two) (pos 5) added-IsRing

abbrev one : Store (Unit {0})
one = add tt encoded 7 hello two

evict-ends_example :
    (must_evict tt 64 (evict tt 5 64 one) ≡ false) × (evict tt 5 64 one ≡ evict tt one.count 64 one)
unfolding add add_encoded append evict new_store new_sized
evict-ends_example = evict-ends tt 5 64 one (omega arith)
