-- ===== src/Sockets/Bluetooth.antt =====
-- src/common/bluetooth.c: RFCOMM sockets, and the entry of the service in the local SDP server. The
-- Bluetooth library is a parameter.
use pcsc_proxy_android.Prelude.{ℕ, ◌%◌, Bool, Option, none, some, List, [], ◌∷◌}
use pcsc_proxy_android.Sockets.Calls.{
  Family, bluetooth, rc, link_encrypt, Sys, Resolver, NetOpts, or_close, or_leave, with_socket,
  bind_listen,
}
use pcsc_proxy_android.Sockets.Network.{pp_accept}

-- `BT_PCSC_UUID`
abbrev pub bt_pcsc_uuid : List ℕ
bt_pcsc_uuid =
    0x1a ∷ 0xd3 ∷ 0x4c ∷ 0x3e ∷ 0x78 ∷ 0x72 ∷ 0x41 ∷ 0x42 ∷ 0x98 ∷ 0x1d ∷ 0x98 ∷ 0xb2 ∷ 0x80 ∷ 0x41
    ∷ 0x6c ∷ 0xe8 ∷ []

-- `svc_info_t`
pub record SvcInfo : Type 0 where
  pub channel : ℕ
  pub handle : ℕ

-- `sdp_record_t`, as much as `add_sp` fills in: the attributes are made by calls of the library
pub record SdpRecord : Type 0 where
  pub handle : ℕ
  pub service_class : List ℕ
  pub rfcomm_channel : ℕ
  pub name : List ℕ

-- "PC/SC Proxy"
abbrev pub bt_pcsc_name : List ℕ
bt_pcsc_name = b'P' ∷ b'C' ∷ b'/' ∷ b'S' ∷ b'C' ∷ b' ' ∷ b'P' ∷ b'r' ∷ b'o' ∷ b'x' ∷ b'y' ∷ []

-- `str2ba` and the SDP client, with the global variable `g_sess` as a part of the state
pub record Bluez (K : Type 0) : Type 0 where
  pub str2ba : List ℕ → Option ℕ
  pub g_sess : K → Option ℕ
  pub set_g_sess : K → Option ℕ → K
  pub sdp_connect : K → K × Option ℕ
  pub sdp_device_record_register : K → Option ℕ → SdpRecord → K × Bool
  pub sdp_close : K → ℕ → K

module _ {K : Type 0} (sys : Sys K) (dns : Resolver) (bz : Bluez K) where
  unfoldable pub pp_btgetport : K → ℕ → Option ℕ
  pp_btgetport k s = elim (sys.getsockname k s) [
    | none ↦ none
    | some a ↦ elim a [ rc address channel ↦ some channel | _ ↦ some 0 ]
  ]

  -- The result of the registration is returned, and not looked at by the caller.
  unfoldable pub add_sp : K → Option ℕ → SvcInfo → K × Bool
  add_sp k session si = bz.sdp_device_record_register k session (record {
    handle = si.handle;
    service_class = bt_pcsc_uuid;
    rfcomm_channel = si.channel;
    name = bt_pcsc_name;
  })

  -- `uint8_t channel`: -1 becomes 255, and the test `channel < 0` is never true.
  abbrev pub as_channel : Option ℕ → ℕ
  as_channel none = 255
  as_channel (some n) = n % 256

  -- the session to the SDP server is opened once
  unfoldable pub sdp_session : K → K
  sdp_session k = elim (bz.g_sess k) [
    | some q ↦ k
    | none ↦ let (k', r) = bz.sdp_connect k in bz.set_g_sess k' r
  ]

  -- The result is never negative.
  unfoldable pub register_sdp : K → ℕ → K × ℕ
  unfolding add_sp sdp_session
  register_sdp k s =
      let channel = as_channel (pp_btgetport k s) in
      let k1 = sdp_session k in
      let (k2, ok) = add_sp k1 (bz.g_sess k1) (record { channel = channel; handle = 0xffffffff }) in
      (k2, channel)

  unfoldable pub pp_btlisten : K → Family → List ℕ → ℕ → K × Option ℕ
  unfolding register_sdp
  pp_btlisten k f btaddr channel = elim (bz.str2ba btaddr) [
    | none ↦ (k, none)
    | some a ↦ with_socket sys k bluetooth λ s k1.
        or_leave sys (sys.setsockopt k1 s link_encrypt) λ k2.
          bind_listen sys s (rc a (channel % 256))
            (λ s' k3. let (k4, c) = register_sdp k3 s' in (k4, some s')) k2
  ]

  -- `!str2ba(...)` holds where the text is an address; of another text `str2ba` leaves the address 0.
  unfoldable pub pp_btconnect : K → List ℕ → ℕ → K × Option ℕ
  pp_btconnect k btaddr channel = elim (bz.str2ba btaddr) [
    | some a ↦ (k, none)
    | none ↦
        with_socket sys k bluetooth
          λ s k1. or_close sys s (sys.connect k1 s (rc 0 (channel % 256))) λ k2. (k2, some s)
  ]

  unfoldable pub pp_bluetooth_opts : NetOpts K
  unfolding pp_btlisten pp_btconnect pp_btgetport pp_accept
  pp_bluetooth_opts = record {
    listen = pp_btlisten;
    accept = pp_accept sys dns;
    connect = pp_btconnect;
    getport = some pp_btgetport;
  }

  unfoldable pub pp_bluetooth_fini : K → K
  pp_bluetooth_fini k = elim (bz.g_sess k) [
    | none ↦ k
    | some q ↦ bz.set_g_sess (bz.sdp_close k q) none
  ]
