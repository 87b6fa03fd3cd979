-- ===== src/Cdp/Registry.antt =====
-- userspace/cdpd/cdpd.c: the two lists of interfaces that the daemon has listened on, and
-- cdpd_register_interface, cdpd_unregister_interface and cdpd_get_interface_status. An interface
-- keeps its neighbours, of any type, when it moves between the lists.
use lisa_user.Base.{
  ℕ, Bool, false, ◌||◌, not, List, [], ◌∷◌, ◌++◌, Option, none, some, if◌then◌else◌, ◌==◌,
}

module _ {ℓ} (Neighbors : Type ℓ) where
  pub record CdpInterface : Type ℓ where
    pub if_index : ℕ
    pub sw_sock_fd : ℕ
    pub neighbors : List Neighbors

  pub record Registry : Type ℓ where
    pub registered : List CdpInterface
    pub deregistered : List CdpInterface

-- What the system answers; a failing assert ends the process.
pub record SystemAnswers : Type 0 where
  pub inet_socket : Bool  -- socket(AF_INET)
  pub flags_known : Bool  -- ioctl SIOCGIFFLAGS, which fails for an index with no interface
  pub up : Bool  -- IFF_UP
  pub switch_socket : Bool  -- socket(PF_SWITCH)
  pub known : Bool  -- if_get_type
  pub switched : Bool  -- its type is IF_TYPE_SWITCHED
  pub bound : Bool  -- setup_switch_socket
  pub sock : ℕ
  pub allocated : Bool  -- malloc
  pub sem_ready : Bool  -- sem_init

module _ {ℓ} {Neighbors : Type ℓ} where
  unfoldable pub is_listed : ℕ → List (CdpInterface Neighbors) → Bool
  is_listed if_index [] = false
  is_listed if_index (e ∷ es) = (if_index == e.if_index) || is_listed if_index es

  -- list_del of the first entry with the index
  unfoldable pub without : ℕ → List (CdpInterface Neighbors) → List (CdpInterface Neighbors)
  without if_index [] = []
  without if_index (e ∷ es) = if if_index == e.if_index then es else e ∷ without if_index es

  -- that entry, with the new socket, as a list; empty if there is none
  unfoldable pub moved : ℕ → ℕ → List (CdpInterface Neighbors) → List (CdpInterface Neighbors)
  moved if_index sock [] = []
  moved if_index sock (e ∷ es) =
      if if_index == e.if_index then record e { sw_sock_fd = sock } ∷ [] else moved if_index sock es

  -- The loop of cdpd_unregister_interface: the entries with the index, and the others.
  unfoldable pub matching : ℕ → List (CdpInterface Neighbors) → List (CdpInterface Neighbors)
  matching if_index [] = []
  matching if_index (e ∷ es) =
      if if_index == e.if_index then e ∷ matching if_index es else matching if_index es

  unfoldable pub others : ℕ → List (CdpInterface Neighbors) → List (CdpInterface Neighbors)
  others if_index [] = []
  others if_index (e ∷ es) =
      if if_index == e.if_index then others if_index es else e ∷ others if_index es

  -- none where an assert fails
  unfoldable pub cdpd_register_interface :
      SystemAnswers → ℕ → Registry Neighbors → Option (Registry Neighbors)
  cdpd_register_interface a if_index r =
      if not a.inet_socket || not a.flags_known
      then none
      else if not a.up
      then some r
      else if not a.switch_socket
      then none
      else if not a.known || not a.switched
      then some r
      else if is_listed if_index r.registered
      then some r
      else if not a.bound
      then some r
      else if is_listed if_index r.deregistered
      then some (record {
        registered = r.registered ++ moved if_index a.sock r.deregistered;
        deregistered = without if_index r.deregistered;
      })
      else if not a.allocated || not a.sem_ready
      then none
      else some (record r {
        registered =
            r.registered
            ++ (record { if_index = if_index; sw_sock_fd = a.sock; neighbors = [] } ∷ []);
      })

  unfoldable pub cdpd_unregister_interface : ℕ → Registry Neighbors → Registry Neighbors
  cdpd_unregister_interface if_index r = record {
    registered = others if_index r.registered;
    deregistered = r.deregistered ++ matching if_index r.registered;
  }

  unfoldable pub cdpd_get_interface_status : ℕ → Registry Neighbors → Bool
  cdpd_get_interface_status if_index r = is_listed if_index r.registered
