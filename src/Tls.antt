-- ===== src/Tls.antt =====
-- src/tls.rs: the constructors for rustls. The file system, the PEM parser and rustls are
-- parameters; the errors of each are texts.
use lumberjack_protocol.Error.{
  ◌>>=◌, Result, Ensures, Ensures-bind, ok, err, M, invalid_config, io, lift, tls, panics, hangs,
}
use lumberjack_protocol.Base.{
  refl, List, Bytes, ◌≡◌, String, map, [], ◌∷◌, ap, Bool, if◌then◌else◌, ◌++◌,
}

-- `std::fs::read`
pub data Read : Type 0 where
  contents : Bytes → Read
  unreadable : String → Read

-- One item of `rustls_pemfile::certs`.
pub data Entry (Cert : Type 0) : Type 0 where
  cert : Cert → Entry Cert
  malformed : String → Entry Cert

-- `rustls_pemfile::private_key`
pub data KeyEntry (Key : Type 0) : Type 0 where
  found : Key → KeyEntry Key
  no_key : KeyEntry Key
  bad_key : String → KeyEntry Key

-- `with_single_cert`
pub data Built (Config : Type 0) : Type 0 where
  built : Config → Built Config
  refused : String → Built Config

pub record Platform (Cert Key Config : Type 0) : Type 0 where
  pub read : String → Read
  pub certs : Bytes → List (Entry Cert)
  pub private_key : Bytes → KeyEntry Key
  pub with_single_cert : List Cert → Key → Built Config

read_file : Read → Result Bytes
read_file (contents b) = ok b
read_file (unreadable m) = err (io m)

-- `.collect::<std::io::Result<Vec<_>>>()` stops at the first error.
collect_certs : {Cert : Type 0} → List (Entry Cert) → Result (List Cert)
collect_certs [] = ok []
collect_certs (malformed m ∷ rest) = err (io m)
collect_certs (cert c ∷ rest) = elim (collect_certs rest) [
  | ok cs ↦ ok (c ∷ cs)
  | err e ↦ err e
  | panics ↦ panics
  | hangs ↦ hangs
]

require_key : {Key : Type 0} → KeyEntry Key → Result Key
require_key (found k) = ok k
require_key no_key = err (invalid_config "no private key in PEM file")
require_key (bad_key m) = err (io m)

require_config : {Config : Type 0} → Built Config → Result Config
require_config (built c) = ok c
require_config (refused m) = err (tls m)

-- The loop over the native roots: a certificate that the store does not take is passed over.
abbrev pub add_all : {Cert : Type 0} → (Cert → Bool) → List Cert → List Cert → List Cert
add_all takes roots [] = roots
add_all takes roots (c ∷ cs) =
    let roots' = if takes c then roots ++ c ∷ [] else roots in add_all takes roots' cs

-- `native` is what `load_native_certs` found.
abbrev pub client_connector_with_native_roots :
    {Cert Connector : Type 0}
    → (native : List Cert) → (takes : Cert → Bool) → (connector : List Cert → Connector)
    → Result Connector
client_connector_with_native_roots native takes connector = ok (connector (add_all takes [] native))

-- What is known of each step that goes well.
read_file-Ensures : (r : Read) → Ensures (λ b. r ≡ contents b) (read_file r)
unfolding read_file
read_file-Ensures (contents b) = refl
read_file-Ensures (unreadable m) = tt

extend :
    {Cert : Type 0} (c : Cert) (rest : List (Entry Cert)) (r : Result (List Cert))
    → Ensures (λ cs. rest ≡ map cert cs) r
    → Ensures
        (λ cs. (cert c ∷ rest) ≡ map cert cs)
        (elim r [ ok cs ↦ ok (c ∷ cs) | err e ↦ err e | panics ↦ panics | hangs ↦ hangs ])
extend c rest (ok cs) h = ap (◌∷◌ (cert c)) h
extend c rest (err e) h = tt
extend c rest panics h = h
extend c rest hangs h = h

collect_certs-Ensures :
    {Cert : Type 0} (es : List (Entry Cert)) → Ensures (λ cs. es ≡ map cert cs) (collect_certs es)
unfolding collect_certs
collect_certs-Ensures [] = refl
collect_certs-Ensures (malformed m ∷ rest) = tt
collect_certs-Ensures (cert c ∷ rest) =
    extend c rest (collect_certs rest) (collect_certs-Ensures rest)

require_key-Ensures : {Key : Type 0} (r : KeyEntry Key) → Ensures (λ k. r ≡ found k) (require_key r)
unfolding require_key
require_key-Ensures (found k) = refl
require_key-Ensures no_key = tt
require_key-Ensures (bad_key m) = tt

require_config-Ensures :
    {Config : Type 0} (Q : Config → Type 0) (r : Built Config)
    → ((c : Config) → r ≡ built c → Q c)
    → Ensures Q (require_config r)
unfolding require_config
require_config-Ensures Q (built c) k = k c refl
require_config-Ensures Q (refused m) k = tt

module _ {Cert Key Config : Type 0} where
  -- The state is not used.
  pub server_acceptor_from_pem : Platform Cert Key Config → String → String → M (Unit {0}) Config
  unfolding read_file collect_certs require_key require_config
  server_acceptor_from_pem os cert_path key_path = do
    cert_pem ← lift (read_file (os.read cert_path))
    key_pem ← lift (read_file (os.read key_path))
    certs ← lift (collect_certs (os.certs cert_pem))
    key ← lift (require_key (os.private_key key_pem))
    lift (require_config (os.with_single_cert certs key))

  -- The configuration that rustls builds from the two files.
  abbrev pub IsAcceptor : Platform Cert Key Config → String → String → Config → Type 0
  IsAcceptor os cert_path key_path config =
      (cert_pem key_pem : Bytes) × (certs : List Cert) × (key : Key) × (os.read cert_path
        ≡ contents cert_pem)
      × (os.read key_path ≡ contents key_pem)
      × (os.certs cert_pem ≡ map cert certs)
      × (os.private_key key_pem ≡ found key)
      × (os.with_single_cert certs key ≡ built config)

  -- `server_acceptor_from_pem` comes to an end, and an acceptor that it returns is what rustls
  -- builds from the private key of the key file and from all the certificates of the certificate
  -- file, in their order, none of which was malformed.
  pub server_acceptor_from_pem-IsAcceptor :
      (os : Platform Cert Key Config) (cert_path key_path : String)
      → Ensures
          (IsAcceptor os cert_path key_path)
          (server_acceptor_from_pem os cert_path key_path tt).0
  unfolding server_acceptor_from_pem
  server_acceptor_from_pem-IsAcceptor os cert_path key_path =
      Ensures-bind _ (read_file (os.read cert_path)) tt _ (read_file-Ensures _) λ cert_pem h₁.
        Ensures-bind _ (read_file (os.read key_path)) tt _ (read_file-Ensures _) λ key_pem h₂.
          Ensures-bind _ (collect_certs (os.certs cert_pem)) tt _
            (collect_certs-Ensures (os.certs cert_pem))
            λ certs h₃.
              Ensures-bind _ (require_key (os.private_key key_pem)) tt _ (require_key-Ensures _)
                λ key h₄.
                  require_config-Ensures _ (os.with_single_cert certs key)
                    λ config h₅. (cert_pem, key_pem, certs, key, h₁, h₂, h₃, h₄, h₅)
