-- ===== src/Engine/Configuration.antt =====
-- libnymea-remoteproxy/proxyconfiguration.h and proxyconfiguration.cpp: ProxyConfiguration, and what
-- it loads from a file. The file system, the file's QSettings, and the conversion of a text to a
-- QHostAddress are Qt's.
use Prim.Native.Nat.{◌%◌, ◌^◌, ◌-◌}
use nymea_remoteproxy.Base.{
  ℕ, Bool, true, false, not, Option, none, some, String, str_eq, Bytes, if◌then◌else◌,
}
use nymea_remoteproxy.Variant.{Variant, ℤ, pos, negsuc, string, boolean, number, Qt}

-- QSslConfiguration, as far as it is set: the contents of the files.
pub record SslConfiguration : Type 0 where
  pub local_certificate : Bytes
  pub private_key : Bytes
  pub ca_certificate : Option Bytes

pub record ProxyConfiguration : Type 0 where
  pub file_name : String
  pub server_name : String
  pub write_log_file : Bool
  pub log_file_name : String
  pub log_engine_enabled : Bool
  pub monitor_socket_file_name : String
  pub json_rpc_timeout : ℤ
  pub inactive_timeout : ℤ
  pub ssl_enabled : Bool
  pub ssl_certificate_file_name : String
  pub ssl_certificate_key_file_name : String
  pub ssl_certificate_chain_file_name : String
  pub ssl_configuration : Option SslConfiguration
  pub unix_socket_file_name : String
  pub web_socket_server_host : String
  pub web_socket_server_port : ℕ
  pub tcp_server_host : String
  pub tcp_server_port : ℕ

unfoldable pub new_configuration : ProxyConfiguration
new_configuration = record {
  file_name = "";
  server_name = "";
  write_log_file = false;
  log_file_name = "/var/log/nymea-remoteproxy.log";
  log_engine_enabled = false;
  monitor_socket_file_name = "";
  json_rpc_timeout = pos 10000;
  inactive_timeout = pos 8000;
  ssl_enabled = true;
  ssl_certificate_file_name = "/etc/ssl/certs/ssl-cert-snakeoil.pem";
  ssl_certificate_key_file_name = "/etc/ssl/private/ssl-cert-snakeoil.key";
  ssl_certificate_chain_file_name = "";
  ssl_configuration = none;
  unix_socket_file_name = "/run/nymea-remoteproxy.socket";
  web_socket_server_host = "127.0.0.1";
  web_socket_server_port = 2212;
  tcp_server_host = "127.0.0.1";
  tcp_server_port = 2213;
}

-- The setters; a getter is the field.
abbrev pub set_server_name : String → ProxyConfiguration → ProxyConfiguration
set_server_name value c = record c { server_name = value }

abbrev pub set_write_log_file : Bool → ProxyConfiguration → ProxyConfiguration
set_write_log_file enabled c = record c { write_log_file = enabled }

abbrev pub set_log_file_name : String → ProxyConfiguration → ProxyConfiguration
set_log_file_name value c = record c { log_file_name = value }

abbrev pub set_log_engine_enabled : Bool → ProxyConfiguration → ProxyConfiguration
set_log_engine_enabled enabled c = record c { log_engine_enabled = enabled }

abbrev pub set_monitor_socket_file_name : String → ProxyConfiguration → ProxyConfiguration
set_monitor_socket_file_name value c = record c { monitor_socket_file_name = value }

abbrev pub set_json_rpc_timeout : ℤ → ProxyConfiguration → ProxyConfiguration
set_json_rpc_timeout value c = record c { json_rpc_timeout = value }

abbrev pub set_inactive_timeout : ℤ → ProxyConfiguration → ProxyConfiguration
set_inactive_timeout value c = record c { inactive_timeout = value }

abbrev pub set_ssl_enabled : Bool → ProxyConfiguration → ProxyConfiguration
set_ssl_enabled enabled c = record c { ssl_enabled = enabled }

abbrev pub set_ssl_certificate_file_name : String → ProxyConfiguration → ProxyConfiguration
set_ssl_certificate_file_name value c = record c { ssl_certificate_file_name = value }

abbrev pub set_ssl_certificate_key_file_name : String → ProxyConfiguration → ProxyConfiguration
set_ssl_certificate_key_file_name value c = record c { ssl_certificate_key_file_name = value }

abbrev pub set_ssl_certificate_chain_file_name : String → ProxyConfiguration → ProxyConfiguration
set_ssl_certificate_chain_file_name value c = record c { ssl_certificate_chain_file_name = value }

abbrev pub set_unix_socket_file_name : String → ProxyConfiguration → ProxyConfiguration
set_unix_socket_file_name value c = record c { unix_socket_file_name = value }

abbrev pub set_web_socket_server_host : String → ProxyConfiguration → ProxyConfiguration
set_web_socket_server_host value c = record c { web_socket_server_host = value }

abbrev pub set_web_socket_server_port : ℕ → ProxyConfiguration → ProxyConfiguration
set_web_socket_server_port value c = record c { web_socket_server_port = value }

abbrev pub set_tcp_server_host : String → ProxyConfiguration → ProxyConfiguration
set_tcp_server_host value c = record c { tcp_server_host = value }

abbrev pub set_tcp_server_port : ℕ → ProxyConfiguration → ProxyConfiguration
set_tcp_server_port value c = record c { tcp_server_port = value }

-- What the program asks the system for: whether a file is there, the bytes of a file that can be
-- opened for reading, a value of the configuration file by group and key, and a host's address as
-- a text.
pub record Files : Type 0 where
  pub exists : String → Bool
  pub open_file : String → Option Bytes
  pub setting : String → String → Option Variant
  pub host_address : String → String

-- A cast to quint16.
abbrev pub to_uint16 : ℤ → ℕ
to_uint16 (pos n) = n % 2 ^ 16
to_uint16 (negsuc n) = (2 ^ 16 - 1) - n % 2 ^ 16

abbrev or_default : Option Variant → Variant → Variant
or_default none default = default
or_default (some v) default = v

-- QVariant::toInt without a test: 0 where it fails.
abbrev or_zero : Option ℤ → ℤ
or_zero none = pos 0
or_zero (some n) = n

module _ (q : Qt) (files : Files) where
  abbrev text_setting : String → String → String → String
  text_setting group key default = q.to_text (or_default (files.setting group key) (string default))

  abbrev bool_setting : String → String → Bool → Bool
  bool_setting group key default =
      q.to_bool (or_default (files.setting group key) (boolean default))

  abbrev int_setting : String → String → ℕ → ℤ
  int_setting group key default =
      or_zero (q.to_int (or_default (files.setting group key) (number (pos default))))

  -- The groups of the file.
  unfoldable pub read_settings : ProxyConfiguration → ProxyConfiguration
  read_settings c =
      set_tcp_server_port (to_uint16 (int_setting "TcpServerTunnelProxy" "port" 2213)) (
        set_tcp_server_host
          (files.host_address (text_setting "TcpServerTunnelProxy" "host" "127.0.0.1"))
          (set_web_socket_server_port
            (to_uint16 (int_setting "WebSocketServerTunnelProxy" "port" 2212))
            (set_web_socket_server_host
              (files.host_address (text_setting "WebSocketServerTunnelProxy" "host" "127.0.0.1"))
              (set_unix_socket_file_name
                (text_setting "UnixSocketServerTunnelProxy" "unixSocketFileName"
                  "/run/nymea-remoteproxy.socket")
                (set_ssl_certificate_chain_file_name (text_setting "SSL" "certificateChain" "") (
                  set_ssl_certificate_key_file_name
                    (text_setting "SSL" "certificateKey" "/etc/ssl/private/ssl-cert-snakeoil.key")
                    (set_ssl_certificate_file_name
                      (text_setting "SSL" "certificate" "/etc/ssl/certs/ssl-cert-snakeoil.pem")
                      (set_ssl_enabled (bool_setting "SSL" "enabled" true) (
                        set_inactive_timeout (int_setting "ProxyServer" "inactiveTimeout" 8000) (
                          set_json_rpc_timeout (int_setting "ProxyServer" "jsonRpcTimeout" 10000) (
                            set_monitor_socket_file_name
                              (text_setting "ProxyServer" "monitorSocket"
                                "/tmp/nymea-remoteproxy.monitor")
                              (set_log_engine_enabled
                                (bool_setting "ProxyServer" "logEngineEnabled" false)
                                (set_log_file_name
                                  (text_setting "ProxyServer" "logFile"
                                    "/var/log/nymea-remoteproxy.log")
                                  (set_write_log_file (bool_setting "ProxyServer" "writeLogs" false)
                                    (set_server_name
                                      (text_setting "ProxyServer" "name" "nymea-remoteproxy")
                                      c)))))))))))))))

  -- The chain is read only where a file is named for it: none if it is and cannot be opened.
  abbrev pub read_chain : String → Option (Option Bytes)
  read_chain name =
      if str_eq name ""
      then some none
      else elim (files.open_file name) [ none ↦ none | some bytes ↦ some (some bytes) ]

  -- The SSL files, one after the other; the first that cannot be opened ends the loading.
  unfoldable pub read_ssl : ProxyConfiguration → Option SslConfiguration
  read_ssl c = elim (files.open_file c.ssl_certificate_file_name) [
    | none ↦ none
    | some certificate ↦ elim (files.open_file c.ssl_certificate_key_file_name) [
      | none ↦ none
      | some key ↦ elim (read_chain c.ssl_certificate_chain_file_name) [
        | none ↦ none
        | some chain ↦
            some (record {
              local_certificate = certificate;
              private_key = key;
              ca_certificate = chain;
            })
      ]
    ]
  ]

  abbrev pub with_ssl : Option SslConfiguration → ProxyConfiguration → ProxyConfiguration × Bool
  with_ssl none c = (c, false)
  with_ssl (some ssl) c = (record c { ssl_configuration = some ssl }, true)

  unfoldable pub load_configuration : String → ProxyConfiguration → ProxyConfiguration × Bool
  unfolding read_settings read_ssl
  load_configuration file_name c =
      let named = record c { file_name = file_name } in
      if not (files.exists file_name)
      then (named, false)
      else (let c' = read_settings named in with_ssl (read_ssl c') c')
