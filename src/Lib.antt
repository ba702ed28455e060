-- ===== src/Lib.antt =====
-- Native programs of the k50sv1_64_bsp device tree, which stand between Android and MediaTek's binaries, and
-- what is proved of them.
--
-- The parts, and where they are modelled. Paths are from the repository's root.
--
-- Prelude is what the parts share: lists over native numbers (Prelude.Lists), Boolean tests (Prelude.Tests),
-- functions that return a negated errno (Prelude.Results, Prelude.Errno), words as bit sets (Prelude.Bits),
-- bytes and little-endian words (Prelude.Bytes), C strings (Prelude.CStrings) and `int` (Prelude.Int).
--
-- Wmt is wmt-launcher, the user-space half of the driver of the connectivity chip.
--   Wmt.Patch           wmt-launcher/patch.c and patch.h. `build_version`, `parse`, `set_add` and
--                       `set_complete` are wmt_patch_build_version, wmt_patch_parse, wmt_patch_set_add and
--                       wmt_patch_set_complete; `add` is the part of wmt_patch_set_add behind the NULL test.
--                       `PatchSet` is wmt_patch_set, with `seen` as a word of bits.
--   Wmt.Protocol        wmt-launcher/protocol.c and include/linux/mtk_wmt_cmd.h. `command_decode`,
--                       `reply_status` and `reply_list` are wmt_command_decode, wmt_reply_status and
--                       wmt_reply_list. A frame is a list of bytes, and its length is the size or capacity
--                       that the C code passes beside it.
--   Wmt.Firmware        wmt-launcher/firmware.c and firmware.h. `read_exact`, `search_directory`, `read_patch`,
--                       `firmware_search`, `find_bytes`, `bt_version`, `read_bt_version`, `read_rom` and
--                       `rom_search` are the functions of these names, in Wmt.Firmware.Files, Directory,
--                       Patches, Versions and Roms. `File` is an open file with what each read does, and a
--                       `Directory` the entries with what each call on them returns.
--   Wmt.Launcher        wmt-launcher/main.c. `send_frame` and `handle_command` are in Wmt.Launcher.Commands,
--                       `open_driver`, `check_chip` and `power_on` in Power, `check_optional_controls` and
--                       `stop_firmware_log` in Controls, `command_loop` in Loop, `main` in Service. `Launch` is
--                       what the calls of main return, and a `Round` what one round of the loop meets.
--   Wmt.Loader          wmt-loader/main.c, the program that names the chip to the detector before the launcher
--                       runs: `main`, `open_detector`, `cached_chip_id` and `initialize_driver`. `World` is
--                       what its calls return.
-- The launcher reads a frame, decodes it (Wmt.Protocol), searches the directory (Wmt.Firmware), which adds each
-- file that parses to one set (Wmt.Patch), and the set's records become the reply to the kernel: Wmt.Patch.Search
-- and Wmt.Firmware.Search are about what a whole search leaves in a set, Wmt.Protocol.Frames about what such
-- a reply holds, and Wmt.Launcher.Replies about the whole way.
--
-- Ril is ril-shim/k50sv1_ril_shim.c, the library that rilproxy loads in place of MediaTek's.
--   Ril.Types           what the shim takes from telephony/ril.h, and MtkInitialAttachApn.
--   Ril.Capability      part 1: fillFixedRadioCapability, resetApplyDedupe, shouldSendApplyUnsol,
--                       getRadioCapability and setRadioCapability. `Applied` is sLastApplySession and
--                       sLastApplySessionValid.
--   Ril.Attach          part 2: copyIa, cacheInitialAttachApn, completeHook, unsolHook, isReissueToken.
--                       `Attach` holds the static variables under sIaLock, and the published originals.
--   Ril.Worker          iaWorker. `Point` is where the worker stands without the lock, or at a `continue`.
--   Ril.Recovery        worker and calls together: a `step` is one call into the shim or one step of the
--                       worker, and `run` takes them in any order, so that each theorem about `run` holds of
--                       every interleaving.
--   Ril.Scan            inModule and resolveDynPtr, on 64-bit addresses; gotScanCallback in Ril.Scan.Modules, and
--                       findGotEntry with the resolving part of installAttachApnHooks in Ril.Scan.Entries. An
--                       `Image` is what memory holds at an address as each of the ELF types.
--   Ril.Got             loadGotValue, verifyGotValue, writeGotValue, rollbackGotHooks, installAttachApnHooks.
--                       `Faults` is what one write runs into: failing calls, and stores of other threads.
--   Ril.Init            patchOnRequest, openRealRil, RIL_Init, RIL_SAP_Init.
--   Ril.Shim            onRequestShim, over both parts.
-- Calls out of the shim are values: `Effect` for part 1 and the dispatch, `Call` for the hooks, the point
-- `sending` for the worker's request.
--
-- What stands for the world. A clock reading is an argument that may fail, in nanoseconds; those of a run
-- need not grow, unless a theorem says so. They are natural numbers: int64_t holds them for 292 years.
-- Whether a strdup succeeds is an argument. Pointers are options, addresses numbers; the size of a page is a
-- power of two, so that masking is the remainder. Logging is left out, and so is the memory that secureZero
-- and free touch. A search that fails in the middle returns no partial result, which wmt_firmware_search and
-- wmt_rom_search drop as well. The power thread and the log worker are not steps of their own: whether they
-- have finished, and with which result, is a part of each round of the command loop.
--
-- Bounds. SIM_COUNT is 2, as Android.bp sets it; there are 16 tokens, 10 patches and 5 ROMs. Except for one,
-- every loop is a recursion on the list or the number of rounds that the C loop has, without fuel. The loop
-- of read_exact has as fuel the number of listed reads and three more: the reads behind the list give all
-- that is asked for, so that one round stores it, and one finds nothing left or the end of the file. The
-- loops that wait for the driver, the chip and the commands need not end: what their rounds meet is a list,
-- and `none` says that a run is still going on when the list is used up.
--
-- Not modelled: the parsing in mappingProt; the end of RIL_Init, which installs the hooks and only logs what
-- comes of it; the moments inside an installation, at which a hook only forwards; set_firmware_log, the body
-- of the log worker, which repeats one ioctl until it is stopped; publish and request_stop; sensors and
-- power-shim; tests and their doubles, the C++ services, and configuration.
pub mod Prelude
pub mod Wmt
pub mod Ril
