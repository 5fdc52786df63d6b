-- ===== src/Startup/Create.antt =====
-- wstunnel/src/lib.rs: create_client_tunnels.
use wstunnel.Prelude.{◌≡◌, Bool, List, []}
use wstunnel.Prelude.Results.{Result, ok, err}
use wstunnel.Net.{FilePath}
use wstunnel.Cli.{LocalToRemote}
use wstunnel.Reload.Certs.{Loaders}
use wstunnel.Server.Connections.{X509}
use wstunnel.Startup.{TunnelListener, Platform, Start, panicked, failed, start_all}
use wstunnel.Startup.Arguments.{Comes}
use wstunnel.Startup.Config.{StartError, start_error, StartUrls}
use wstunnel.Startup.Resolvers.{ServerUrls}
use wstunnel.Startup.ClientData.{Client, WsClient, Outside}
use wstunnel.Startup.ClientConfig.{create_client}

-- What is left of the arguments once the tunnels are taken.
abbrev pub without_tunnels : {U : Type 0} → Client U → Client U
without_tunnels args = record args { remote_to_local = []; local_to_remote = [] }

module _ {U D K X E C : Type 0} (urls : StartUrls U) (server_urls : ServerUrls U)
    (loaders : Loaders FilePath (List D) K) (x509 : X509 D X) (outside : Outside D K E C)
    (platform : Platform) (opens : TunnelListener → Bool) where
  -- `opens` says which listeners can be made.
  unfoldable pub create_client_tunnels : Client U → Start
  unfolding start_all
  create_client_tunnels args =
      elim (create_client urls server_urls loaders x509 outside (without_tunnels args)) [
        | err e ↦ elim e [ start_error ↦ failed | StartError.panicked ↦ panicked ]
        | ok client ↦ start_all platform opens [] args.remote_to_local args.local_to_remote
      ]

  -- What a start comes to, by how making the client ends.
  abbrev pub StartsAs : Result StartError (WsClient U C) → List LocalToRemote → Start → Type 0
  StartsAs (err start_error) all_args start = start ≡ failed
  StartsAs (err StartError.panicked) all_args start = start ≡ panicked
  StartsAs (ok client) all_args start = Comes platform opens all_args start
