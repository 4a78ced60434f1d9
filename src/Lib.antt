-- ===== src/Lib.antt =====
-- lpmx, a rootless container composer: the parts of it that decide, and what is proved of them.
--
-- The program keeps its state in files below one directory: a registry of containers
-- (.lpmxsys/.info), a list of images (.lpmxdata/.info), a directory for each container with its pid
-- file, and two small key-value files for each container. The model follows the source file by file:
--
--   Base       Go as the other modules need it: byte strings (Text, Strings), integers as strconv
--              prints and reads them (Numbers), maps with string keys (Dict), error/error.go with
--              results that are a value, an error or a panic (Result), and the file system (World).
--              A function that touches files is a function on World; a panic ends it.
--   Utils      utils/utils.go: FileType, FileExist, RegularFileExist, FolderExist, ReadFromFile,
--              WriteToFile (Utils/Files), MakeDir, RemoveAll, RemoveFile, CopyFile (Utils/Folders),
--              GuessPath, GuessPathContainer, GuessPathsContainer, AddConPath (Utils/Guess),
--              CompareVersion (Utils/Version), the permissions and the processes (Utils/Permissions),
--              UntarLayer and Untar (Utils/Untar), TarFiles, TarLayer and ConvertTar2Gzip (Utils/Pack),
--              and Rename, GetFileSize, GetFileLength, Sha256file, CreateTempDir (Utils/Moving). The
--              proofs are in Utils/Copies, Utils/Guess, Utils/Linked, Utils/Temp, Utils/Version and
--              Utils/Whiteout.
--   FileCache  filecache/filecache.go: FInitServer, FGetStrValue, FSetValue, FDeleteByKey, with the
--              loops over the items in FileCache/Items and the methods in FileCache/Store.
--   Registry   registry/authchallenge.go: parseAuthHeader and all that it calls.
--   Compose    compose/type.go: Validate (Compose/Validate), and of container/container.go the run of
--              a compose file: Compose, runComposeApp, autoDownload, convertMapValue (Compose/Run).
--   Pid        pid/pid.go: PidValue, PidIsActive, PidCreate, PidCreateByPid.
--   Elf        elf/elf.go: Patchldso with bytes.Replace, and the calls of patchelf (Elf/Commands).
--   Paeudo     paeudo/paeudo.go: Command, CommandBash, ShellEnvPid, ProcessContextEnv.
--   Yaml       yaml/yaml.go: MultiGetMap and LoadConfig.
--   Rpc        rpc/rpc.go, and of container/container.go RPCExec, RPCQuery and RPCDelete of the server
--              and RPCQuery and RPCDelete of the client.
--   Docker     docker/docker.go: DirectDownloadFilefromGithub, GenGithubURLfromYaml and
--              DownloadFilefromGithubPlus, with GetHostOSInfo of utils/utils.go; DownloadLayers,
--              LoadDockerTar, LoadSkopeoTar, ListRepositories, ListTags, GetDigest, DeleteManifest
--              (Docker/Layers), MakeManifestV1, UploadManifests, UploadLayers, GetToken, HasBlob,
--              UploadBlob (Docker/Push), with proofs in Docker/Rounds,
--              Docker/Complete and Docker/Unsent.
--   Singularity  singularity/singularity.go: ExtractSquashfs, LoadSquashfs, Unsquashfs.
--   Container  container/container.go. Where the state is: GetConfigDir with GetCurrDir of
--              utils/utils.go (Container/Config), unmarshalObj with StructUnmarshal of
--              msgpack/msgpack.go (Container/Sys). The settings: Set, Get, setMap, getMap, setExec,
--              getExec (Container/Maps), which work on the file cache. The registry of containers:
--              appendToSys (Container/Append) and Destroy (Container/Destroy), with the registry as a
--              file in Container/Registry. The methods of a container, which change it also when they
--              fail (Container/Method): refreshElf (Container/Refresh), patchBineries and walkfs
--              (Container/Patch) on the values of setting.yml (Container/Conf), genEnv
--              (Container/Environ), createContainer and setupContainer (Container/Setup), bashShell
--              (Container/Shell). The life cycle: generateContainer (Container/Generate), Run and
--              startRPCService (Container/Run), Resume (Container/Resume), CommonFastRun,
--              CommonComposeRun, CommonCreate (Container/Common), Expose (Container/Expose), and
--              CommonDelete (Container/Images). What is shown of the state: List, CommonList, with
--              Uninstall (Container/Overview). Init, Reset, DockerReset (Container/Initial), and
--              Update (Container/Update). The images: DockerDownload
--              (Container/Install), DockerLoad, SkopeoLoad, SingularityLoad (Container/Load),
--              DockerPackage and DockerAdd (Container/Offline), DockerMerge (Container/Merge),
--              DockerCommit (Container/Commit, with its layer in Container/Layer), DockerPush and
--              DockerSearch (Container/Push). The functions that
--              a compose run calls, put together (Container/Composed). The proofs on these:
--              Container/Lifecycle and Container/History on the registry, Container/Leave on the end
--              of Run, Container/Held on Resume, Container/Guarded on DockerCommit, Container/Stopped
--              on Update, Container/Started on Init, Container/Listed and Container/Composed on the
--              list of images, Container/Settings, Container/Relied, Container/Given and
--              Container/Refused.
--
-- A function keeps the name of the source in lower case with underscores. Where a loop or the tail of
-- a function is a definition of its own, its comment says which.
--
-- What is not in the repository is a parameter: Compose/Vendor has mapset, stringUtils and the
-- order in which Go visits a map, with their laws; Codec the writing and reading of msgpack, where
-- what was written is read; Archives and Permbits the reading of archives and of permissions; Host,
-- Environ and Processes what the operating system tells of the program and of other processes;
-- Exec, Combined and Shells the running of programs; Viper the reading of a configuration; Walker
-- filepath.Walk; Found and Dialer the calls behind RPC; Web the answers to requests; Machine
-- checksums and the texts of RandomString; Packer the writing of archives; Hub and Manifests the
-- registry of images, Json its manifests, Client the requests to it; Sif the descriptors of a
-- Singularity image. Outside collects those that a run of a container needs, and Supplies those of
-- the functions on images. A map that is only gone through is a list in the order in which Go
-- visits it. Engine stands for the functions of container/container.go that a compose run calls;
-- Container/Composed fills it with them.
--
-- Integers: the counters of Validate are int8, kept as bit patterns, so that 128 dependents wrap. A pid
-- is read with 32 bits. Two loops have fuel: the one over the parameters of a challenge, with one more
-- than the length of the text, since every round of it shortens the text; and the one of CreateTempDir,
-- which the source repeats until a name is free, with the number of rounds that Machine gives, which is
-- enough where one of so many names is free.
--
-- An error is a kind with its messages; the text of a library's own error is not modelled. The file
-- system has permissions and symbolic links of one step, no directories that are missing, and no
-- other process that writes between two calls. Text is compared in ASCII where the source changes
-- its case. RemoveAll removes everything at and below a path, or nothing, where below is said of
-- the text of the paths, so that the root and relative paths are out of its reach. In CopyFile
-- io.Copy writes as much as there is room for, and its error is ignored as in the source; Chmod
-- does not fail there, and elsewhere a write to an open file succeeds. A text that msgpack cannot
-- read leaves the value that it was to fill. UntarLayer and Untar give an entry no permissions. The
-- lines that List prints are rows of texts. Init is modelled up to the variables that it sets in
-- its own process, which end with it. os.Rename moves a path to one that is no folder. An archive
-- is written as a list of headers; what the writing of a header or of a checksum does when the disk
-- is full does not occur. The lines that show the progress of a download are left out.
-- Not modelled: the requests of the registry client (registry/), which Hub stands for, RPCExec of
-- the client, which answers before its call is done, the queue, the log, and the command line.
pub mod Base
pub mod Utils
pub mod FileCache
pub mod Registry
pub mod Compose
pub mod Pid
pub mod Elf
pub mod Container
pub mod Paeudo
pub mod Yaml
pub mod Rpc
pub mod Docker
pub mod Singularity
