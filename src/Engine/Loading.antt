-- ===== src/Engine/Loading.antt =====
-- Which configurations load (proxyconfiguration.cpp).
use nymea_remoteproxy.Base.{
  ◌≡◌, refl, ◌↔◌, ◌⊎◌, Bool, true, false, not, Option, none, some, is_some, String, str_eq, arith,
  if◌then◌else◌,
}
use nymea_remoteproxy.Variant.{Qt}
use nymea_remoteproxy.Engine.Configuration.{
  ProxyConfiguration, SslConfiguration, Files, read_settings, read_chain, read_ssl, with_ssl,
  load_configuration,
}

module _ (q : Qt) (files : Files) where
  -- The files for SSL can be read.
  abbrev pub CanRead : ProxyConfiguration → Type 0
  CanRead c =
      (is_some (files.open_file c.ssl_certificate_file_name) ≡ true)
      × (is_some (files.open_file c.ssl_certificate_key_file_name) ≡ true)
      × ((str_eq c.ssl_certificate_chain_file_name "" ≡ true)
          ⊎ (is_some (files.open_file c.ssl_certificate_chain_file_name) ≡ true))

  chain_iff :
      (name : String)
      → (is_some (read_chain q files name) ≡ true)
        ↔ ((str_eq name "" ≡ true) ⊎ (is_some (files.open_file name) ≡ true))
  chain_iff name = ground arith

  read_ssl_iff : (c : ProxyConfiguration) → (is_some (read_ssl q files c) ≡ true) ↔ CanRead c
  unfolding read_ssl
  read_ssl_iff c = ground (arith, chain_iff c.ssl_certificate_chain_file_name)

  kept_ssl :
      (c : ProxyConfiguration) → (read_settings q files c).ssl_configuration ≡ c.ssl_configuration
  unfolding read_settings
  kept_ssl c = refl

  -- The configuration loads exactly if its file is there, and the certificate, the key and, where
  -- one is named, the chain that the file names can be read, whether or not it enables SSL; if it
  -- does not load, the SSL configuration is the one before.
  pub load_configuration_iff :
      (file_name : String) (c : ProxyConfiguration)
      → let loaded = load_configuration q files file_name c in
        let read = read_settings q files (record c { file_name = file_name }) in
        ((loaded.1 ≡ true) ↔ ((files.exists file_name ≡ true) × CanRead read))
        × (loaded.1 ≡ false → loaded.0.ssl_configuration ≡ c.ssl_configuration)
  unfolding load_configuration
  load_configuration_iff file_name c =
      let read = read_settings q files (record c { file_name = file_name }) in
      let named = record c { file_name = file_name } in
      (
        ground (arith, read_ssl_iff read),
        λ e.
            either named read (files.exists file_name) (read_ssl q files read) e refl
              (kept_ssl named),
      )
    where
      either :
          (named read : ProxyConfiguration) (exists : Bool) (o : Option SslConfiguration)
          → (if not exists then (named, false) else with_ssl q files o read).1 ≡ false
          → named.ssl_configuration ≡ c.ssl_configuration
          → read.ssl_configuration ≡ c.ssl_configuration
          → (if not exists then (named, false) else with_ssl q files o read).0.ssl_configuration
            ≡ c.ssl_configuration
      either named read false o e h k = h
      either named read true none e h k = k
      either named read true (some ssl) e h k = absurd (ground (arith, e))
