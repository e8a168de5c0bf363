-- ===== src/CommandParser/Files.antt =====
-- pkg/parser/files.go and path_validator.go: the files that a command writes, and those of them in the
-- system's directories for temporary files. The wording of the suggestions is left out.
use klaudiush.Prelude.{
  Bool, true, false, List, [], ◌∷◌, ◌++◌, drop, reverse, map, filter, ◌==◌, if◌then◌else◌,
}
use klaudiush.Prelude.Bytes.{Str, codes, str_eq, has_prefix, is_empty, after_last}
use klaudiush.CommandParser.{Location}

pub data WriteOp : Type 0 where
  no_write redirect append tee copy move heredoc : WriteOp

unfoldable pub write_op_name : WriteOp → Str
write_op_name no_write = codes "None"
write_op_name redirect = codes "Redirect"
write_op_name append = codes "Append"
write_op_name tee = codes "Tee"
write_op_name copy = codes "Copy"
write_op_name move = codes "Move"
write_op_name heredoc = codes "Heredoc"

pub record FileWrite : Type 0 where
  pub path : Str
  pub operation : WriteOp
  pub source : Str
  pub content : Str
  pub location : Location

-- The end of a path, or a slash.
abbrev at_end : Str → Bool
at_end [] = true
at_end (c ∷ s) = c == b'/'

unfoldable pub is_protected_path : Str → Bool
is_protected_path path =
    if has_prefix path (codes "/tmp")
    then at_end (drop 4 path)
    else if has_prefix path (codes "/var/tmp")
    then at_end (drop 8 path)
    else false

pub record PathViolation : Type 0 where
  pub path : Str
  pub operation : WriteOp
  pub location : Location
  pub local_path : Str

abbrev drop_slashes : Str → Str
drop_slashes [] = []
drop_slashes (c ∷ s) = if c == b'/' then drop_slashes s else c ∷ s

-- `filepath.Base`
unfoldable pub base_name : Str → Str
base_name path =
    let stripped = reverse (drop_slashes (reverse path)) in
    if is_empty path
    then codes "."
    else if is_empty stripped
    then codes "/"
    else after_last b'/' stripped

-- `filepath.Join` of `tmp` and a name, which cleans the path.
unfoldable pub get_local_path : Str → Str
unfolding base_name
get_local_path path =
    let name = base_name path in
    if str_eq name (codes ".")
    then codes "tmp"
    else if str_eq name (codes "/")
    then codes "tmp"
    else if str_eq name (codes "..")
    then codes "."
    else codes "tmp/" ++ name

abbrev violation : FileWrite → PathViolation
unfolding get_local_path
violation w = record {
  path = w.path;
  operation = w.operation;
  location = w.location;
  local_path = get_local_path w.path;
}

unfoldable pub check_protected_paths : List FileWrite → List PathViolation
unfolding is_protected_path violation
check_protected_paths writes = map violation (filter (λ w. is_protected_path w.path) writes)
