-- ===== src/Docker.antt =====
-- docker/docker.go: the download of a file from the repository of settings, with GetHostOSInfo of
-- utils/utils.go, which says for which distribution. The children have the layers of images, which
-- are downloaded, loaded and uploaded.
pub mod Layers
pub mod Push
pub mod Unsent
pub mod Rounds
pub mod Complete
mod Tests
use lpmx.Base.{ℕ, Bool, true, ◌==◌, Option, none, some, List, [], ◌∷◌, ◌++◌, map, if◌then◌else◌}
use lpmx.Base.Text.{Bytes, codes, has_prefix, split}
use lpmx.Base.Strings.{to_lower, trim_space, without_prefix}
use lpmx.Base.Numbers.{ℤ, pos, negsuc}
use lpmx.Base.Paths.{below, path_base, path_dir}
use lpmx.Base.Dict.{Dict, lookup}
use lpmx.Base.Result.{Kind, Result, ok, err, panic, err_new}
use lpmx.Base.World.{Go, pure, fail, crash, ◌>>=◌, ◌>>◌, opens, write_file, ignoring}
use lpmx.Utils.Files.{file_exist}
use lpmx.Utils.Version.{compare_version}
use lpmx.Paeudo.{Exec, command}
use lpmx.Yaml.{Viper, load_config}
use lpmx.Container.Sys.{Scalar, text, other}
use lpmx.Container.Conf.{Field, one, many, text_of}
use lpmx.Container.Generate.Links.{make_missing}

-- An answer to an http request: its status, its body, and how the reading of the body fails.
pub record Reply : Type 0 where
  pub status_code : ℕ
  pub body : Bytes
  pub failure : Option Kind

-- distro.management.yml, as far as the code looks into it: config["map"] and config["version"], if
-- they are maps.
pub record Distros : Type 0 where
  pub names : Option (Dict Scalar)
  pub versions : Option (Dict Field)

-- http.Get, the reader of the configuration, and whether strconv.ParseFloat reads a text.
pub record Web : Type 0 where
  pub get : Bytes → Go Reply
  pub viper : Viper Distros
  pub is_numeric : Bytes → Bool

unfoldable pub setting_url : Bytes
setting_url =
    codes "https://raw.githubusercontent.com/JasonYangShadow/LPMXSettingRepository/master/v1.9"

unfoldable pub or_unreached : Bytes → Result Reply → Result Reply
unfolding err_new
or_unreached url (ok r) = ok r
or_unreached url (err e) =
    err
      (err_new Kind.http_not_found (codes "http request to " ++ url ++ codes " encounters failure"))
or_unreached url panic = panic

-- os.Create; what the code then copies to the file is `content`.
unfoldable pub created : Bytes → Bytes → Option Kind → Bytes → Go (Unit {0})
unfolding opens write_file err_new
created path content failure url w =
    if opens w path
    then (
      elim failure [
        | none ↦ ok tt
        | some k ↦ err (
            err_new Kind.file_io
              (codes "io copy from " ++ url ++ codes " to " ++ path ++ codes " encounters error"))
      ],
      write_file w path content,
    )
    else (err (err_new Kind.file_stat (path ++ codes " file create error")), w)

-- m[name], if it is a text, and otherwise the name.
unfoldable pub chosen_name : Option (Dict Scalar) → Bytes → Bytes
unfolding lookup
chosen_name none name = name
chosen_name (some m) name = elim (lookup name m) [
  | none ↦ name
  | some v ↦ elim v [ text n ↦ n | other s ↦ name ]
]

-- ret == 0 || ret == -1, where an error comes with 0
unfoldable pub fits : Result ℤ → Go Bool
fits (ok (pos n)) = pure (n == 0)
fits (ok (negsuc n)) = pure (n == 0)
fits (err e) = pure true
fits panic = crash

unfoldable pub chosen_tag : List Scalar → Bytes → Go Bytes
unfolding text_of fits compare_version
chosen_tag [] tag = pure tag
chosen_tag (arr ∷ v_array) tag =
    let rest = chosen_tag v_array tag in
    (do
      s ← text_of arr
      fitting ← fits (compare_version s tag b'.')
      if fitting then pure s else rest)

unfoldable pub tag_among : Option Field → Bytes → Go Bytes
unfolding chosen_tag
tag_among none tag = pure tag
tag_among (some (one v)) tag = pure tag
tag_among (some (many vs)) tag = chosen_tag vs tag

unfoldable pub version_of : Option (Dict Field) → Bytes → Bytes → Go Bytes
unfolding tag_among lookup
version_of none name tag = pure tag
version_of (some v) name tag = tag_among (lookup name v) tag

-- The name and the tag that the configuration leads to, if it can be read.
unfoldable pub resolved : Bytes → Bytes → Result Distros → Go (Bytes × Bytes)
unfolding chosen_name version_of to_lower
resolved name tag (ok config) = do
  tag' ←
      version_of config.versions (chosen_name config.names (map to_lower name)) (map to_lower tag)
  pure (chosen_name config.names (map to_lower name), tag')
resolved name tag (err e) = pure (name, tag)
resolved name tag panic = crash

unfoldable pub or_else : Go (Unit {0}) → Go (Unit {0}) → Go (Unit {0})
or_else m k w =
    let (r, w') = m w in elim r [ ok u ↦ (ok u, w') | err e ↦ k w' | panic ↦ (panic, w') ]

module _ (web : Web) where
  -- DirectDownloadFilefromGithub
  unfoldable pub direct_download_file_from_github : Bytes → Bytes → Bytes → Go (Unit {0})
  unfolding make_missing or_unreached created err_new
  direct_download_file_from_github filename url folder = do
    make_missing folder
    resp ← λ w. let (r, w') = web.get url w in (or_unreached url r, w')
    if resp.status_code == 404
        then fail (err_new Kind.n_exist (url ++ codes " returns 404"))
        else created (below folder filename) resp.body resp.failure url

  -- GenGithubURLfromYaml, whose error is always nil.
  unfoldable pub gen_github_url_from_yaml : Bytes → Bytes → Bytes → Bytes → Bytes → Go Bytes
  unfolding file_exist path_base path_dir direct_download_file_from_github ignoring load_config
      resolved
  gen_github_url_from_yaml name tag url yaml target_file = do
    λ w.
        (if file_exist w yaml
            then pure tt
            else ignoring (
                direct_download_file_from_github (path_base yaml) (below url (path_base yaml))
                  (path_dir yaml)))
          w
    (name', tag') ← λ w.
        (if file_exist w yaml
            then (λ v. let (r, v') = load_config web.viper yaml v in resolved name tag r v')
            else pure (name, tag))
          w
    pure (below (below (below url name') tag') target_file)

  -- DownloadFilefromGithubPlus
  unfoldable pub download_file_from_github_plus :
      Bytes → Bytes → Bytes → Bytes → Bytes → Bytes → Go (Unit {0})
  unfolding make_missing created gen_github_url_from_yaml direct_download_file_from_github or_else
  download_file_from_github_plus name tag filename url folder yaml = do
    make_missing folder
    created (below folder filename) [] none url
    gen_url ← gen_github_url_from_yaml name tag url yaml filename
    or_else (direct_download_file_from_github filename gen_url folder) (
        or_else (direct_download_file_from_github filename (below (below url name) filename) folder)
          (direct_download_file_from_github filename (url ++ codes "/default." ++ filename) folder))

  -- The last item that is a number.
  unfoldable pub release_in : Bytes → List Bytes → Bytes
  release_in release [] = release
  release_in release (item ∷ arr) = release_in (if web.is_numeric item then item else release) arr

  -- The first item, and the release.
  unfoldable pub distribution : List Bytes → Bytes × Bytes
  unfolding release_in
  distribution [] = ([], [])
  distribution (distributor ∷ arr) = (distributor, release_in [] (distributor ∷ arr))

-- What stands behind the prefix in the last line that has it.
unfoldable pub labelled : Bytes → Bytes → List Bytes → Bytes
unfolding trim_space without_prefix
labelled label value [] = value
labelled label value (line ∷ lines) =
    labelled label (if has_prefix line label then trim_space (without_prefix label line) else value)
      lines

module _ (web : Web) (run : Exec) where
  -- What a release file says, if there is one with something in it.
  unfoldable pub in_file : Result Bytes → Go (Bytes × Bytes) → Go (Bytes × Bytes)
  unfolding distribution
  in_file (ok []) other_ways = other_ways
  in_file (ok (c ∷ s)) other_ways = pure (distribution web (split b' ' (c ∷ s)))
  in_file (err e) other_ways = other_ways
  in_file panic other_ways = crash

  -- GetHostOSInfo
  unfoldable pub get_host_os_info : Go (Bytes × Bytes)
  unfolding command in_file labelled
  get_host_os_info w =
      let (r, w1) = command run (codes "cat") (codes "/etc/centos-release" ∷ []) w in
      in_file r
        (λ v.
          let (r', v') = command run (codes "cat") (codes "/etc/redhat-release" ∷ []) v in
          in_file r'
            (do
              output ← command run (codes "lsb_release") (codes "-a" ∷ [])
              pure (
                labelled (codes "Distributor ID:") [] (split 10 output),
                labelled (codes "Release:") [] (split 10 output),
              ))
            v')
        w1
