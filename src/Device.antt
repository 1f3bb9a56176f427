-- ===== src/Device.antt =====
-- include/device.hpp: `init`, which registers the work function of a device, and what that function
-- reads of the block that `setFunction` copies for it.
pub mod Sockets
use home_keeper.Prelude.{
  ℕ, true, List, [], ◌∷◌, ◌++◌, Option, none, some, ◌≡◌, refl, ◌∙◌, ◌==◌, if◌then◌else◌, take,
  Bytes, codes, bytes_eq,
}
use home_keeper.ThreadPool.{Funcs, set_function, start_func, start_func-set_function}

-- `deviceType`
abbrev pub tcp_server : ℕ
tcp_server = 0

abbrev pub tcp_client : ℕ
tcp_client = 1

abbrev pub udp_server : ℕ
udp_server = 2

abbrev pub udp_server_broadcast : ℕ
udp_server_broadcast = 3

abbrev pub udp_client : ℕ
udp_client = 4

abbrev pub udp_client_broadcast : ℕ
udp_client_broadcast = 5

-- The static functions of the class.
pub data Work : Type 0 where
  no_work run_tcp_server run_tcp_client run_udp_server run_udp_client : Work

-- A device. `string_words` are the words of the object `ip`, and `info_ip` those of `info.ip`:
-- they depend on the machine and the library. In memory `sock`, `ip` and `info` follow one another.
pub record Device : Type 0 where
  pub type : ℕ
  pub sock : ℕ
  pub string_words : List ℕ
  pub info_ip : List ℕ

-- The words from `&info` on, and those from `&sock` on; a word has 4 bytes.
abbrev pub from_info : Device → List ℕ
from_info d = d.type ∷ d.sock ∷ d.info_ip

abbrev pub from_sock : Device → List ℕ
from_sock d = d.sock ∷ d.string_words ++ from_info d

-- `sizeof(device_info_t)` is 40.
abbrev pub info_words : ℕ
info_words = 10

-- `init`
unfoldable pub init : Device → Funcs no_work → Funcs no_work
init d funcs =
    let info = some (take info_words (from_info d)) in
    let long = some (take info_words (from_sock d)) in
    let short = some (take 1 (from_sock d)) in
    if d.type == tcp_server
    then set_function no_work (codes "TCP_SERVER") run_tcp_server info funcs
    else if d.type == tcp_client
    then set_function no_work (codes "TCP_CLIENT") run_tcp_client long funcs
    else if d.type == udp_server
    then set_function no_work (codes "UDP_SERVER") run_udp_server long funcs
    else if d.type == udp_server_broadcast
    then set_function no_work (codes "UDP_SERVER_BROADCAST") run_udp_server info funcs
    else if d.type == udp_client
    then set_function no_work (codes "UDP_CLIENT") run_udp_client short funcs
    else if d.type == udp_client_broadcast
    then set_function no_work (codes "UDP_CLIENT_BROADCAST") run_udp_client short funcs
    else funcs

-- The name under which a type is registered.
abbrev pub name_of : ℕ → Bytes
name_of type =
    if type == tcp_server
    then codes "TCP_SERVER"
    else if type == tcp_client
    then codes "TCP_CLIENT"
    else if type == udp_server
    then codes "UDP_SERVER"
    else if type == udp_server_broadcast
    then codes "UDP_SERVER_BROADCAST"
    else if type == udp_client
    then codes "UDP_CLIENT"
    else codes "UDP_CLIENT_BROADCAST"

-- What `udpServer` and `udpClient` do before they open the socket: read `info->sock` and
-- `info->type`. `none`: the word is behind the block.
abbrev pub read_info : Option (List ℕ) → Option (ℕ × ℕ)
read_info (some (type ∷ sock ∷ rest)) = some (type, sock)
read_info (some (type ∷ [])) = none
read_info (some []) = none
read_info none = none

-- What a thread reads when its block has been registered.
read_registered :
    (name : Bytes) (work : Work) (block : List ℕ) (funcs : Funcs no_work)
    → bytes_eq name name ≡ true
    → read_info (start_func no_work (set_function no_work name work (some block) funcs) name).1
      ≡ read_info (some block)
read_registered name work block funcs e =
    rw (start_func-set_function no_work name name work (some block) funcs, e)

-- What the thread of a device reads, as type and port.
abbrev pub reads : Device → Funcs no_work → Option (ℕ × ℕ)
reads d funcs = read_info (start_func no_work (init d funcs) (name_of d.type)).1

-- Of the UDP devices, where the string object has at least one word, only the broadcasting server
-- reads its own type and port. The server without broadcast takes the port for the type and a word
-- of the string object for the port, and the two clients read behind their block.
pub device_reads :
    (d : Device) (w : ℕ) (ws : List ℕ) (funcs : Funcs no_work)
    → d.string_words ≡ w ∷ ws
    → reads (record d { type = udp_server_broadcast }) funcs ≡ some (udp_server_broadcast, d.sock)
      × reads (record d { type = udp_server }) funcs ≡ some (d.sock, w)
      × reads (record d { type = udp_client }) funcs ≡ none
      × reads (record d { type = udp_client_broadcast }) funcs ≡ none
unfolding init
device_reads d w ws funcs e =
    let long = take info_words (from_sock (record d { type = udp_server })) in
    let info = take info_words (from_info (record d { type = udp_server_broadcast })) in
    (
      read_registered (codes "UDP_SERVER_BROADCAST") run_udp_server info funcs refl,
      read_registered (codes "UDP_SERVER") run_udp_server long funcs refl ∙ rw e,
      read_registered (codes "UDP_CLIENT") run_udp_client (d.sock ∷ []) funcs refl,
      read_registered (codes "UDP_CLIENT_BROADCAST") run_udp_client (d.sock ∷ []) funcs refl,
    )
