-- ===== src/Storage/SectionTests.antt =====
-- A key whose deadline comes as it is read, while another thread sets it.
use ralphdb.Prelude.{
  All, [], ◌∷◌, ◌≡◌, refl, none, some, true, bytes_eq, codes, ◌&&◌, if◌then◌else◌,
}
use ralphdb.Storage.Map.{assoc_map}
use ralphdb.Storage.Ops.{World, new_storage, new_entry, set, get, expire, ttl, stale}
use ralphdb.Storage.Sections.{call_with, get_first, expire_first, ttl_first}
use ralphdb.Storage.Interference.{results_between, find_between, lost_set}
use ralphdb.Storage.Spec.{Call, History, run_replies}
use ralphdb.Storage.Ranges.{ReplyFits, run_replies-InRange}
use ralphdb.Storage.Tests.{dash, ticking, key_a, store}

abbrev setter : World dash.Map → World dash.Map
setter v = (set dash ticking key_a (codes "1") v).1

results_between_example :
    ((call_with dash ticking setter (get_first dash ticking key_a) store).0
      ≡ (get dash ticking key_a store).0)
    × ((call_with dash ticking setter (expire_first dash ticking key_a 7) store).0
        ≡ (expire dash ticking key_a 7 store).0)
    × ((call_with dash ticking setter (ttl_first dash ticking key_a) store).0
        ≡ (ttl dash ticking key_a store).0)
results_between_example = results_between dash ticking store key_a setter 7

find_between_example :
    dash.find (call_with dash ticking setter (get_first dash ticking key_a) store).1.inner key_a ≡ (
      if (stale dash ticking (dash.find store.inner key_a) store).0 && bytes_eq key_a key_a
      then none
      else dash.find (setter (get_first dash ticking key_a store).1).inner key_a)
find_between_example = find_between dash ticking store key_a setter key_a

late_a : (stale dash ticking (dash.find store.inner key_a) store).0 ≡ true
unfolding stale assoc_map
late_a = refl

lost_set_example :
    (dash.find (call_with dash ticking setter (get_first dash ticking key_a) store).1.inner key_a
      ≡ none)
    × (dash.find (call_with dash ticking setter (ttl_first dash ticking key_a) store).1.inner key_a
        ≡ none)
    × (dash.find (setter (get dash ticking key_a store).1).inner key_a
        ≡ some (new_entry (codes "1")))
    × (dash.find (get dash ticking key_a (setter store)).1.inner key_a
        ≡ some (new_entry (codes "1")))
    × (dash.find (setter (ttl dash ticking key_a store).1).inner key_a
        ≡ some (new_entry (codes "1")))
    × (dash.find (ttl dash ticking key_a (setter store)).1.inner key_a
        ≡ some (new_entry (codes "1")))
lost_set_example = lost_set dash ticking store key_a (codes "1") late_a

-- A deadline that comes after a second, and a counter.
abbrev day : History
day =
    (1, Call.set key_a (codes "7"))
    ∷ (2, Call.expire key_a 1_500_000_000)
    ∷ (3, Call.ttl key_a)
    ∷ (4, Call.incr key_a)
    ∷ []

run_replies-InRange_example : All ReplyFits (run_replies dash day (new_storage dash))
run_replies-InRange_example = run_replies-InRange dash day
