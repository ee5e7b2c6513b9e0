-- ===== src/Message/ServerHello/Parts.antt =====
-- serverHelloMsg: what reading each written extension does to the message read so far.
use electricity.Common.{
  ℕ, ◌<◌, ◌^◌, ◌≡◌, true, false, some, List, [], ◌∷◌, ◌++◌, not, append-nil, arith, ◌==◌, length,
  length-append, is_empty, All, ok, bind?-eq-some,
}
use electricity.Wire.{Cryptobyte}
use electricity.Wire.Build.{
  ⊕-eq-some, build_list, read_prefixed_end, read_prefixed-put_prefixed, length-put_prefixed,
  put_prefixed-ne-empty,
}
use electricity.Wire.Parse.{Reads, read_all-build_list}
use electricity.Wire.Extensions.{optional, extension, flag}
use electricity.Wire.Fresh.{AddsFresh, AddsFresh-optional, AddsFresh-flag}
use electricity.Const.Extension
use electricity.Message.Encrypted.{alpn_body}
use electricity.Message.Encrypted.RoundTrip.{read_alpn-alpn_body, read_bytes_whole}
use electricity.Message.ServerHello.{
  KeyShare, ServerHelloMsg, sct_body, share_body, read_sct, read_scts, read_key_share,
  handle_server_extension,
}

module _ (cb : Cryptobyte) where
  open cb use {put, put_prefixed, read, read_prefixed, length-put, read-put}

  read_end : (w v : ℕ) → v < 256 ^ w → read w (put w v) ≡ some (v, [])
  read_end w v h = rw append-nil at (read-put w v [] h)

  Reads-sct :
      (scts : List (List ℕ))
      → All (λ sct. is_empty sct ≡ false) scts
      → All (Reads (put_prefixed 2) (read_sct cb)) scts
  Reads-sct [] _ = tt
  Reads-sct (sct ∷ scts) (full, more) = (
    (λ out rest e. (
      rw (read_prefixed-put_prefixed cb 2 sct out rest e, full),
      omega (arith, length-put_prefixed cb 2 sct out e),
    )),
    Reads-sct scts more,
  )

  build_list-ne-empty :
      (scts : List (List ℕ)) (out : List ℕ)
      → not (is_empty scts) ≡ true
      → build_list (put_prefixed 2) scts ≡ some out
      → is_empty out ≡ false
  build_list-ne-empty [] out h e = cc
  build_list-ne-empty (sct ∷ scts) out h e =
      let (x, y, p, q, f) = ⊕-eq-some (put_prefixed 2 sct) (build_list (put_prefixed 2) scts) e in
      first x y (put_prefixed-ne-empty cb 2 sct x (omega arith) p) f
    where
      first : (x y : List ℕ) → is_empty x ≡ false → out ≡ x ++ y → is_empty out ≡ false
      first [] y n f = cc
      first (b ∷ x) y n f = rw f

  read_scts-sct_body :
      (scts : List (List ℕ)) (d : List ℕ)
      → All (λ sct. is_empty sct ≡ false) scts
      → not (is_empty scts) ≡ true
      → sct_body cb scts ≡ some d
      → read_scts cb d ≡ ok (scts, [])
  unfolding read_scts
  read_scts-sct_body scts d full h e =
      let (y, p, q) = bind?-eq-some (build_list (put_prefixed 2) scts) (put_prefixed 2) e in
      rw (
        read_prefixed_end cb 2 y d q,
        build_list-ne-empty scts y h p,
        read_all-build_list (put_prefixed 2) (read_sct cb) scts (Reads-sct scts full) p,
      )

  read_key_share-share_body :
      (share : KeyShare) (d : List ℕ) (n : ServerHelloMsg)
      → share.group < 65536
      → share_body cb share ≡ some d
      → read_key_share cb d n ≡ ok (record n { server_share = share }, [])
  unfolding read_key_share
  read_key_share-share_body share d n small e =
      let (x, y, p, q, f) =
        ⊕-eq-some (some (put 2 share.group)) (put_prefixed 2 share.key_data) e in
      let f' : d ≡ put 2 share.group ++ y = cc in
      let long : (length d == 2) ≡ false = rw f' (
        ground (
          arith,
          length-append (put 2 share.group) y,
          length-put 2 share.group,
          length-put_prefixed cb 2 share.key_data y q,
        )) in
      rw (long, f', read-put 2 share.group y small, read_prefixed_end cb 2 share.key_data y q)

  read_key_share-group :
      (g : ℕ) (n : ServerHelloMsg)
      → g < 65536
      → read_key_share cb (put 2 g) n ≡ ok (record n { selected_group = g }, [])
  unfolding read_key_share
  read_key_share-group g n small =
      let two : (length (put 2 g) == 2) ≡ true = rw (length-put 2 g) in rw (two, read_end 2 g small)

  -- One lemma for each part, in the order of the source: `n` is the message read so far.
  module _ (m n : ServerHelloMsg) where
    pub ocsp_part :
        n.ocsp_stapling ≡ false
        → AddsFresh cb
            (handle_server_extension cb)
            (Extension.status_request ∷ [])
            (optional m.ocsp_stapling (flag cb Extension.status_request))
            n
            (record n { ocsp_stapling = m.ocsp_stapling })
    unfolding handle_server_extension
    ocsp_part z =
        AddsFresh-flag cb (handle_server_extension cb) m.ocsp_stapling Extension.status_request n
          (record n { ocsp_stapling = m.ocsp_stapling }) (omega arith) (λ t rest. ground arith)
          (λ t. ground arith)

    pub ticket_part :
        n.ticket_supported ≡ false
        → AddsFresh cb
            (handle_server_extension cb)
            (Extension.session_ticket ∷ [])
            (optional m.ticket_supported (flag cb Extension.session_ticket))
            n
            (record n { ticket_supported = m.ticket_supported })
    unfolding handle_server_extension
    ticket_part z =
        AddsFresh-flag cb (handle_server_extension cb) m.ticket_supported Extension.session_ticket n
          (record n { ticket_supported = m.ticket_supported }) (omega arith)
          (λ t rest. ground arith) (λ t. ground arith)

    pub renegotiation_part :
        (m.secure_renegotiation_supported ≡ false → m.secure_renegotiation ≡ [])
        → n.secure_renegotiation_supported ≡ false
        → n.secure_renegotiation ≡ []
        → AddsFresh cb
            (handle_server_extension cb)
            (Extension.renegotiation_info ∷ [])
            (optional m.secure_renegotiation_supported
              (extension cb Extension.renegotiation_info (put_prefixed 1 m.secure_renegotiation)))
            n
            (record n {
              secure_renegotiation_supported = m.secure_renegotiation_supported;
              secure_renegotiation = m.secure_renegotiation;
            })
    unfolding handle_server_extension
    renegotiation_part shown z z₁ =
        AddsFresh-optional cb (handle_server_extension cb) m.secure_renegotiation_supported
          Extension.renegotiation_info (put_prefixed 1 m.secure_renegotiation) n
          (record n {
            secure_renegotiation_supported = m.secure_renegotiation_supported;
            secure_renegotiation = m.secure_renegotiation;
          })
          (omega arith) (λ t d rest e. rw (read_prefixed_end cb 1 m.secure_renegotiation d e, t))
          (λ t. ground (arith, shown t))

    pub master_secret_part :
        n.extended_master_secret ≡ false
        → AddsFresh cb
            (handle_server_extension cb)
            (Extension.extended_master_secret ∷ [])
            (optional m.extended_master_secret (flag cb Extension.extended_master_secret))
            n
            (record n { extended_master_secret = m.extended_master_secret })
    unfolding handle_server_extension
    master_secret_part z =
        AddsFresh-flag cb (handle_server_extension cb) m.extended_master_secret
          Extension.extended_master_secret n
          (record n { extended_master_secret = m.extended_master_secret }) (omega arith)
          (λ t rest. ground arith) (λ t. ground arith)

    pub alpn_part :
        n.alpn_protocol ≡ []
        → AddsFresh cb
            (handle_server_extension cb)
            (Extension.alpn ∷ [])
            (optional
              (not (is_empty m.alpn_protocol))
              (extension cb Extension.alpn (alpn_body cb m.alpn_protocol)))
            n
            (record n { alpn_protocol = m.alpn_protocol })
    unfolding handle_server_extension
    alpn_part z =
        AddsFresh-optional cb (handle_server_extension cb) (not (is_empty m.alpn_protocol))
          Extension.alpn (alpn_body cb m.alpn_protocol) n
          (record n { alpn_protocol = m.alpn_protocol }) (omega arith)
          (λ t d rest e. rw (read_alpn-alpn_body cb m.alpn_protocol d t e)) (λ t. ground arith)

    pub sct_part :
        All (λ sct. is_empty sct ≡ false) m.scts
        → n.scts ≡ []
        → AddsFresh cb
            (handle_server_extension cb)
            (Extension.sct ∷ [])
            (optional (not (is_empty m.scts)) (extension cb Extension.sct (sct_body cb m.scts)))
            n
            (record n { scts = m.scts })
    unfolding handle_server_extension
    sct_part full z =
        AddsFresh-optional cb (handle_server_extension cb) (not (is_empty m.scts)) Extension.sct
          (sct_body cb m.scts) n (record n { scts = m.scts }) (omega arith)
          (λ t d rest e. rw (read_scts-sct_body m.scts d full t e)) (λ t. ground arith)

    pub version_part :
        m.supported_version < 65536
        → n.supported_version ≡ 0
        → AddsFresh cb
            (handle_server_extension cb)
            (Extension.supported_versions ∷ [])
            (optional
              (not (m.supported_version == 0))
              (extension cb Extension.supported_versions (some (put 2 m.supported_version))))
            n
            (record n { supported_version = m.supported_version })
    unfolding handle_server_extension
    version_part small z =
        AddsFresh-optional cb (handle_server_extension cb) (not (m.supported_version == 0))
          Extension.supported_versions (some (put 2 m.supported_version)) n
          (record n { supported_version = m.supported_version }) (omega arith)
          (λ t d rest e.
            let f : put 2 m.supported_version ≡ d = cc in
            rw (← f, read_end 2 m.supported_version small))
          (λ t. ground arith)

    pub share_part :
        m.server_share.group < 65536
        → (m.server_share.group ≡ 0 → m.server_share.key_data ≡ [])
        → n.server_share ≡ record { group = 0; key_data = [] }
        → AddsFresh cb
            (handle_server_extension cb)
            (Extension.key_share ∷ [])
            (optional
              (not (m.server_share.group == 0))
              (extension cb Extension.key_share (share_body cb m.server_share)))
            n
            (record n { server_share = m.server_share })
    unfolding handle_server_extension
    share_part small shown z =
        AddsFresh-optional cb (handle_server_extension cb) (not (m.server_share.group == 0))
          Extension.key_share (share_body cb m.server_share) n
          (record n { server_share = m.server_share }) (omega arith)
          (λ t d rest e. read_key_share-share_body m.server_share d n small e)
          (λ t. ground (arith, shown (ground arith)))

    pub identity_part :
        m.selected_identity < 65536
        → (m.selected_identity_present ≡ false → m.selected_identity ≡ 0)
        → n.selected_identity_present ≡ false
        → n.selected_identity ≡ 0
        → AddsFresh cb
            (handle_server_extension cb)
            (Extension.pre_shared_key ∷ [])
            (optional m.selected_identity_present
              (extension cb Extension.pre_shared_key (some (put 2 m.selected_identity))))
            n
            (record n {
              selected_identity_present = m.selected_identity_present;
              selected_identity = m.selected_identity;
            })
    unfolding handle_server_extension
    identity_part small shown z z₁ =
        AddsFresh-optional cb (handle_server_extension cb) m.selected_identity_present
          Extension.pre_shared_key (some (put 2 m.selected_identity)) n
          (record n {
            selected_identity_present = m.selected_identity_present;
            selected_identity = m.selected_identity;
          })
          (omega arith)
          (λ t d rest e.
            let f : put 2 m.selected_identity ≡ d = cc in
            rw (← f, read_end 2 m.selected_identity small, t))
          (λ t. ground (arith, shown t))

    pub cookie_part :
        n.cookie ≡ []
        → AddsFresh cb
            (handle_server_extension cb)
            (Extension.cookie ∷ [])
            (optional
              (not (is_empty m.cookie))
              (extension cb Extension.cookie (put_prefixed 2 m.cookie)))
            n
            (record n { cookie = m.cookie })
    unfolding handle_server_extension
    cookie_part z =
        AddsFresh-optional cb (handle_server_extension cb) (not (is_empty m.cookie))
          Extension.cookie (put_prefixed 2 m.cookie) n (record n { cookie = m.cookie })
          (omega arith) (λ t d rest e. rw (read_prefixed_end cb 2 m.cookie d e, t))
          (λ t. ground arith)

    pub group_part :
        m.selected_group < 65536
        → n.selected_group ≡ 0
        → AddsFresh cb
            (handle_server_extension cb)
            (Extension.key_share ∷ [])
            (optional
              (not (m.selected_group == 0))
              (extension cb Extension.key_share (some (put 2 m.selected_group))))
            n
            (record n { selected_group = m.selected_group })
    unfolding handle_server_extension
    group_part small z =
        AddsFresh-optional cb (handle_server_extension cb) (not (m.selected_group == 0))
          Extension.key_share (some (put 2 m.selected_group)) n
          (record n { selected_group = m.selected_group }) (omega arith)
          (λ t d rest e.
            let f : put 2 m.selected_group ≡ d = cc in
            rw (← f) (read_key_share-group m.selected_group n small))
          (λ t. ground arith)

    pub points_part :
        n.supported_points ≡ []
        → AddsFresh cb
            (handle_server_extension cb)
            (Extension.supported_points ∷ [])
            (optional
              (not (is_empty m.supported_points))
              (extension cb Extension.supported_points (put_prefixed 1 m.supported_points)))
            n
            (record n { supported_points = m.supported_points })
    unfolding handle_server_extension
    points_part z =
        AddsFresh-optional cb (handle_server_extension cb) (not (is_empty m.supported_points))
          Extension.supported_points (put_prefixed 1 m.supported_points) n
          (record n { supported_points = m.supported_points }) (omega arith)
          (λ t d rest e. rw (read_prefixed_end cb 1 m.supported_points d e, t)) (λ t. ground arith)

    pub hello_part :
        n.encrypted_client_hello ≡ []
        → AddsFresh cb
            (handle_server_extension cb)
            (Extension.encrypted_client_hello ∷ [])
            (optional
              (not (is_empty m.encrypted_client_hello))
              (extension cb Extension.encrypted_client_hello (some m.encrypted_client_hello)))
            n
            (record n { encrypted_client_hello = m.encrypted_client_hello })
    unfolding handle_server_extension
    hello_part z =
        AddsFresh-optional cb (handle_server_extension cb) (not (is_empty m.encrypted_client_hello))
          Extension.encrypted_client_hello (some m.encrypted_client_hello) n
          (record n { encrypted_client_hello = m.encrypted_client_hello }) (omega arith)
          (λ t d rest e. rw (read_bytes_whole cb d) (ground arith)) (λ t. ground arith)

    pub name_part :
        n.server_name_ack ≡ false
        → AddsFresh cb
            (handle_server_extension cb)
            (Extension.server_name ∷ [])
            (optional m.server_name_ack (flag cb Extension.server_name))
            n
            (record n { server_name_ack = m.server_name_ack })
    unfolding handle_server_extension
    name_part z =
        AddsFresh-flag cb (handle_server_extension cb) m.server_name_ack Extension.server_name n
          (record n { server_name_ack = m.server_name_ack }) (omega arith) (λ t rest. ground arith)
          (λ t. ground arith)
