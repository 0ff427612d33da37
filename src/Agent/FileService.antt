-- ===== src/Agent/FileService.antt =====
-- resolveInstancePath of internal/agent/grpc_file_service.go, the path check of every file operation,
-- and the further guards of DeleteFile and CopyFile. The working directory of the process, which is
-- where filepath.Abs starts, is an argument, and is always known.
pub mod Resolved
mod Tests
use craft_stack.Prelude.{
  List, [], ◌∷◌, ◌++◌, Text, codes, Bool, true, false, not, ◌||◌, Option, none, some, same,
  if◌then◌else◌,
}
use craft_stack.Prelude.Dict.{Dict, get}
use craft_stack.GoText.{has_prefix}
use craft_stack.GoPath.{clean, join}

-- The error of resolveInstancePath, or the path
pub data Resolution : Type 0 where
  instance_not_found no_work_dir access_reject : Resolution
  resolved : Text → Resolution

-- filepath.Abs
unfoldable pub abs : Text → Text → Text
abs cwd path = if has_prefix path (codes "/") then clean path else join cwd path

within : Text → Text → Resolution
within abs_work_dir abs_target =
    if not (has_prefix abs_target abs_work_dir) then access_reject else resolved abs_target

resolve_in : Text → Text → Text → Resolution
unfolding within
resolve_in cwd rel_path abs_work_dir =
    if same (clean rel_path) (codes ".") || same (clean rel_path) []
    then resolved abs_work_dir
    else within abs_work_dir (abs cwd (join abs_work_dir (clean rel_path)))

-- Given the work directory of the instance
resolve_def : Text → Text → Option Text → Resolution
unfolding resolve_in
resolve_def cwd rel_path none = instance_not_found
resolve_def cwd rel_path (some work_dir) =
    if same work_dir [] then no_work_dir else resolve_in cwd rel_path (abs cwd work_dir)

-- resolveInstancePath, with the work directories of the instances by id
unfoldable pub resolve_instance_path : Text → Dict Text → Text → Text → Resolution
unfolding resolve_def
resolve_instance_path cwd defs id rel_path = resolve_def cwd rel_path (get defs id)

-- Whether DeleteFile goes on with a path that was resolved
unfoldable pub may_delete : Text → Text → Text → Bool
may_delete cwd work_dir path = not (same path (abs cwd work_dir))

-- Whether CopyFile lets a source and a destination through, once both were resolved
unfoldable pub may_copy : Text → Text → Bool
may_copy src dst = not (same src dst || has_prefix (dst ++ codes "/") (src ++ codes "/"))
