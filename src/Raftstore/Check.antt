-- ===== src/Raftstore/Check.antt =====
-- kv/raftstore/util/util.go: what a command is checked against, the region's range and its epoch.
use tinykv.Prelude.{
  Bool, true, false, not, ◌&&◌, ◌||◌, ◌==◌, if◌then◌else◌, Option, none, some, Bytes,
}
use tinykv.Raftstore.Cmd.{
  Region, RaftCmdRequest, AdminRequest, invalid_admin, transfer_leader, change_peer, compact_log,
  split,
}
use tinykv.Scheduler.Regions.Keys.{before, is_empty}

pub data EpochError : Type 0 where
  missing_header epoch_not_match : EpochError

-- True is no error.
unfoldable pub check_key_in_region : Bytes → Region → Bool
check_key_in_region key region =
    not (before key region.start_key) && (is_empty region.end_key || before key region.end_key)

-- Whether the version is checked, and whether the version of the configuration is.
unfoldable pub checked_epochs : Option AdminRequest → Bool × Bool
checked_epochs none = (true, false)
checked_epochs (some invalid_admin) = (false, false)
checked_epochs (some transfer_leader) = (true, true)
checked_epochs (some (change_peer p)) = (false, true)
checked_epochs (some (compact_log i t)) = (false, false)
checked_epochs (some (split s)) = (true, true)

unfoldable pub check_region_epoch : RaftCmdRequest → Region → Option EpochError
unfolding checked_epochs
check_region_epoch req region =
    let check = checked_epochs req.admin_request in
    if not check.0 && not check.1 then none else elim req.header [
      | none ↦ some missing_header
      | some epoch ↦
          if (check.1 && not (epoch.conf_ver == region.region_epoch.conf_ver))
            || (check.0 && not (epoch.version == region.region_epoch.version))
          then some epoch_not_match
          else none
    ]
