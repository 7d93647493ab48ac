-- ===== src/Connections/IpfsStorage.antt =====
-- src/lib/ipfs-storage: the connection to web3.storage, its module and the uris of what it stores.
use zombiies_api.Common.{ℕ, Result, ok, [], ◌∷◌, ◌++◌, if◌then◌else◌}
use zombiies_api.Filter.Texts.{Text, codes, starts_with}
use zombiies_api.Connections.{Core}

pub record IpfsStorageModuleOptions : Type 0 where
  pub token : ℕ

-- A client with a token.
pub record IpfsStorage : Type 0 where
  pub token : ℕ

abbrev pub create_ipfs_connection : IpfsStorageModuleOptions → Result IpfsStorage
create_ipfs_connection o = ok (record { token = o.token })

abbrev pub ipfs_storage_core : Core IpfsStorageModuleOptions IpfsStorage
ipfs_storage_core = record {
  default_connection = codes "default";
  connection_token = codes "IpfsModuleConnectionToken";
  options_token = codes "IpfsModuleOptionsToken";
  create_connection = create_ipfs_connection;
}

abbrev pub cid_to_uri : Text → Text
cid_to_uri cid = codes "ipfs://" ++ cid

abbrev pub drop_start : Text → Text → Text
drop_start [] s = s
drop_start (p ∷ ps) [] = []
drop_start (p ∷ ps) (c ∷ s) = drop_start ps s

-- `uri.replace(/^ipfs:\/\//, '')`.
abbrev pub uri_to_cid : Text → Text
uri_to_cid uri =
    let rest = drop_start (codes "ipfs://") uri in
    if starts_with (codes "ipfs://") uri then rest else uri
