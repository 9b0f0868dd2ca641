-- ===== src/Lsof/Process/Errors.antt =====
-- Which errors of 310551113_hw1/hw1.cpp make a reader fail.
use advanced_programming_in.Base.{◌≡◌, arith, Bool, true, false, List, Bool-cases, inl, inr}
use advanced_programming_in.Base.Text.{Text}
use advanced_programming_in.Lsof.Files.{Disk, Err, is_failed, Target, kind, node, get_from_stat}
use advanced_programming_in.Lsof.Files.{safe_readlink}
use advanced_programming_in.Lsof.Process.{get_special_file}

get_from_stat-is_failed :
    (d : Disk) (path : Text) (t : Target) (through : Bool) (err : Err)
    → is_failed err ≡ false
    → is_failed (get_from_stat d path t through err).1 ≡ false
unfolding get_from_stat is_failed
get_from_stat-is_failed d path t through err h = ground arith

-- `get_special_file` reports an error exactly if the link cannot be read for another reason than a
-- missing permission: that neither `stat` finds the file does not count as an error.
pub get_special_file-is_failed :
    (d : Disk) (pool : List Text) (path fd : Text)
    → is_failed (get_special_file d pool path fd).1 ≡ is_failed (safe_readlink d path).1
unfolding get_special_file
get_special_file-is_failed d pool path fd = elim (Bool-cases (is_failed (safe_readlink d path).1)) [
  | inl bad ↦ ground arith
  | inr good ↦
      let type_fine = get_from_stat-is_failed d path kind true (safe_readlink d path).1 good in
      let node_fine = get_from_stat-is_failed d path node true _ type_fine in
      ground (arith, type_fine, node_fine)
]
