-- ===== src/Paths.antt =====
-- The paths of daemon/src/config.rs. What lies below the module directory is replaced when the module
-- is updated; what lies below the data directory stays.
use ningshi.Prelude.{String, ◌≡◌, refl, Option, none, strip_prefix}
use ningshi.Prelude.Decimal.{append}

abbrev pub module_dir : String
module_dir = "/data/adb/modules/ningshi"

abbrev pub data_dir : String
data_dir = "/data/adb/ningshi"

unfoldable pub module_file : String → String
unfolding append
module_file name = append module_dir (append "/" name)

unfoldable pub data_file : String → String
unfolding append
data_file name = append data_dir (append "/" name)

unfoldable pub rules_path : String
unfolding data_file
rules_path = data_file "rules.json"

unfoldable pub rules_backup_path : String
unfolding data_file
rules_backup_path = data_file "rules.json.ok"

unfoldable pub lock_path : String
unfolding data_file
lock_path = data_file "daemon.lock"

unfoldable pub state_path : String
unfolding data_file
state_path = data_file "state.json"

unfoldable pub socket_path : String
unfolding module_file
socket_path = module_file "ningshi.sock"

unfoldable pub log_path : String
unfolding module_file
log_path = module_file "ningshi.log"

-- No file of the data directory lies below the module directory, whatever its name: the rules, their
-- backup, the saved state and the lock survive an update.
data_file_kept : (name : String) → strip_prefix module_dir (data_file name) ≡ none
unfolding data_file strip_prefix
data_file_kept name = refl

-- The socket and the log go with the module.
module_file_replaced :
    (name : String) → strip_prefix module_dir (module_file name) ≡ Option.some (append "/" name)
unfolding module_file strip_prefix
module_file_replaced name = refl
