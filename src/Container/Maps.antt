-- ===== src/Container/Maps.antt =====
-- The settings of a container: setExec, getExec, setMap, getMap, Set and Get of
-- container/container.go.
use lpmx.Base.{◌||◌, Option, none, some, [], ◌++◌, map, if◌then◌else◌}
use lpmx.Base.Text.{Bytes, codes, eqb}
use lpmx.Base.Strings.{to_lower, trim_space}
use lpmx.Base.Dict.{lookup}
use lpmx.Base.Result.{Kind, Error, ok, err, panic, err_new}
use lpmx.Base.World.{Go, pure, fail, crash, ◌>>=◌, ◌>>◌}
use lpmx.FileCache.Store.{
  FileCacheInst, f_init_server, f_get_str_value, f_set_value, f_delete_by_key,
}
use lpmx.Container.Config.{Host, get_config_dir}
use lpmx.Container.Sys.{Scalar, text, other, Entry, fields, scalar, Sys, Codec, unmarshal_obj}

-- ELFOP[4], ELFOP[5], ELFOP[6] and ELFOP[7]
unfoldable pub add_map : Bytes
add_map = codes "add_map"

unfoldable pub remove_map : Bytes
remove_map = codes "remove_map"

unfoldable pub add_exec : Bytes
add_exec = codes "add_exec"

unfoldable pub remove_exec : Bytes
remove_exec = codes "remove_exec"

-- fmt.Sprintf("%s/.lpmxsys", currdir)
abbrev pub sys_dir : Bytes → Bytes
sys_dir dir = dir ++ codes "/.lpmxsys"

abbrev pub mapmap : Bytes
mapmap = codes "/.mapmap"

abbrev pub execmap : Bytes
execmap = codes "/.execmap"

-- v.(string)
unfoldable pub as_text : Option Scalar → Go Bytes
as_text (some (text s)) = pure s
as_text (some (other s)) = crash
as_text none = crash

-- The two comparisons of tp in setExec and in setMap.
unfoldable pub change : Bytes → Bytes → FileCacheInst → Bytes → Bytes → Bytes → Go (Unit {0})
change adds removes fc tp name value = do
  if eqb tp adds then f_set_value fc name value else pure tt
  if eqb tp removes then f_delete_by_key fc name else pure tt

module _ (h : Host) (c : Codec Sys) where
  unfoldable pub load : Go Sys
  unfolding get_config_dir unmarshal_obj
  load = do dir ← get_config_dir h; unmarshal_obj c (sys_dir dir)

  -- The file of a container, if `v` is a map: `vval["ConfigPath"].(string)`.
  unfoldable pub at_file {ℓ} :
      {A : Type ℓ} → Bytes → Option Entry → Go A → (FileCacheInst → Go A) → Go A
  unfolding as_text f_init_server
  at_file suffix (some (fields fs)) otherwise f = do
    config ← as_text (lookup (codes "ConfigPath") fs)
    fc ← f_init_server (config ++ suffix)
    f fc
  at_file suffix (some (scalar s)) otherwise f = otherwise
  at_file suffix none otherwise f = otherwise

  -- setMap
  unfoldable pub set_map : Bytes → Bytes → Bytes → Bytes → Go (Unit {0})
  unfolding load at_file change add_map remove_map
  set_map id tp name value = do
    sys ← load
    at_file mapmap (lookup id sys.containers) (pure tt)
        (λ fc. change add_map remove_map fc tp name value)

  -- getMap
  unfoldable pub get_map : Bytes → Bytes → Go Bytes
  unfolding load at_file
  get_map id name = do
    sys ← load
    at_file mapmap (lookup id sys.containers) (pure []) (λ fc. f_get_str_value fc name)

  -- setExec
  unfoldable pub set_exec : Bytes → Bytes → Bytes → Bytes → Go (Unit {0})
  unfolding load at_file change add_exec remove_exec
  set_exec id tp name value = do
    sys ← load
    at_file execmap (lookup id sys.containers) (pure tt)
        (λ fc. change add_exec remove_exec fc tp name value)

  -- getExec
  unfoldable pub get_exec : Bytes → Bytes → Go Bytes
  unfolding load at_file
  get_exec id name = do
    sys ← load
    at_file execmap (lookup id sys.containers) (pure []) (λ fc. f_get_str_value fc name)

  not_there : Bytes → Error
  unfolding err_new
  not_there id = err_new Kind.n_exist (codes "conatiner with id: " ++ id ++ codes " doesn't exist")

  -- The `switch` of Set, on tp in lower case.
  unfoldable pub switch : Bytes → Bytes → Bytes → Bytes → Go (Unit {0})
  unfolding set_map set_exec err_new
  switch id tp name value =
      if eqb tp add_exec || eqb tp remove_exec
      then set_exec id tp name value
      else if eqb tp add_map || eqb tp remove_map
      then set_map id tp name value
      else fail (
          err_new Kind.type_error
            (codes "tp should be one of 'add_exec','remove_exec','add_map','remove_map'"))

  unfoldable pub set_entry : Bytes → Option Entry → Bytes → Bytes → Bytes → Go (Unit {0})
  unfolding switch not_there
  set_entry id (some (fields fs)) tp name value =
      switch id (map to_lower (trim_space tp)) name value
  set_entry id (some (scalar s)) tp name value = pure tt
  set_entry id none tp name value = fail (not_there id)

  -- Set. `err == ErrNExist` never holds, since err is an *Error and ErrNExist is none.
  unfoldable pub set : Bytes → Bytes → Bytes → Bytes → Go (Unit {0})
  unfolding set_entry
  set id tp name value = do sys ← load; set_entry id (lookup id sys.containers) tp name value

  -- `v, _ := m`
  unfoldable pub or_empty : Go Bytes → Go Bytes
  or_empty m w = let (r, w') = m w in (elim r [ ok s ↦ ok s | err e ↦ ok [] | panic ↦ panic ], w')

  unfoldable pub get_entry : Bytes → Option Entry → Bytes → Go (Bytes × Bytes)
  unfolding or_empty get_map get_exec not_there
  get_entry id (some v) name = do
    m_val ← or_empty (get_map id name)
    e_val ← or_empty (get_exec id name)
    pure (m_val, e_val)
  get_entry id none name = fail (not_there id)

  -- Get: the two values that it prints.
  unfoldable pub get : Bytes → Bytes → Go (Bytes × Bytes)
  unfolding get_entry
  get id name = do sys ← load; get_entry id (lookup id sys.containers) name
