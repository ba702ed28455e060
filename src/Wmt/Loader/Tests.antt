-- ===== src/Wmt/Loader/Tests.antt =====
-- A run of the loader: the node is there at the third attempt, and the detector names the older alias.
use android_device_xsh_k50sv.Prelude.{
  ℕ, List, ◌≡◌, refl, true, some, [], ok, fail, ltb, if◌then◌else◌,
}
use android_device_xsh_k50sv.Prelude.Errno.{enoent}
use android_device_xsh_k50sv.Prelude.Int.{pos}
use android_device_xsh_k50sv.Wmt.Loader.{
  World, Action, main, cached_chip_id, printed_chip, open_from, identified, with_detector, prepared,
  initialize_driver,
}
use android_device_xsh_k50sv.Wmt.Loader.Runs.{
  Succeeds, run_of, main-Succeeds, cached_chip_id-printed_chip,
}

abbrev world : World
world = record {
  ready = [];
  chip_property = [];
  opens = λ a. if ltb a 2 then fail enoent else ok 4;
  detected = pos 0x0326;
  sets_chip = true;
  ioctl = λ i. true;
  sets_ready = true;
}

cached_chip_id-printed_chip_example : cached_chip_id (printed_chip 0x0326) ≡ some 0x0326
cached_chip_id-printed_chip_example = cached_chip_id-printed_chip 0x0326 refl

succeeded : (main world).0 ≡ 0
unfolding main open_from with_detector identified cached_chip_id prepared initialize_driver
succeeded = refl

main-Succeeds_example :
    (a : ℕ) × (fd : ℕ) × (chip : ℕ) × (asked : List Action) × Succeeds world a fd chip asked
    × ((main world).1 ≡ run_of a fd chip asked)
main-Succeeds_example = main-Succeeds world refl succeeded
