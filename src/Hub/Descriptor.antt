-- ===== src/Hub/Descriptor.antt =====
-- The descriptors that a root hub gives (xhci-hub.c), as bytes.
use fl.Base.{
  ℕ, zero, suc, Bool, List, ◌∷◌, [], ◌++◌, ◌+◌, ◌*◌, ◌/◌, ◌%◌, ◌^◌, if◌then◌else◌, replicate, ◌==◌,
}
use Prim.Native.Nat.{bit_or}
use fl.Base.Bits.{has}
use fl.Base.Bytes.{overwrite}
use fl.Hub.{Hub, Host, Hcd, readl, port_dev_remove}

abbrev pub usb_dt_hub : ℕ
usb_dt_hub = 0x29

abbrev pub usb_dt_ss_hub : ℕ
usb_dt_ss_hub = 0x2a

abbrev pub usb_dt_ss_hub_size : ℕ
usb_dt_ss_hub_size = 12

abbrev pub usb_dt_bos : ℕ
usb_dt_bos = 0x0f

-- `USB_DT_BOS_SIZE + USB_DT_USB_SS_CAP_SIZE`
abbrev pub bos_size : ℕ
bos_size = 5 + 10

-- A 16-bit word, low byte first.
abbrev pub le16 : ℕ → List ℕ
le16 w = w % 256 ∷ (w / 256) % 256 ∷ []

-- `xhci_common_hub_descriptor`, behind the length and the type: the number of ports, the
-- characteristics, `bPwrOn2PwrGood` and `bHubContrCurrent`.
unfoldable pub common_hub_descriptor : Hcd → ℕ → List ℕ
common_hub_descriptor c ports =
    let power = if has (2 ^ 3) c.hcc_params then 0x1 else 0x2 in
    ports % 256 ∷ le16 (bit_or power 0x8) ++ 10 ∷ 0 ∷ []

-- Byte `i` of `port_removable`, after the loop over the ports from `p` on, of which `left` are
-- left: bit `p + 1` stands for port `p`.
unfoldable pub removable_byte : (ℕ → Bool) → ℕ → ℕ → ℕ → ℕ → ℕ
removable_byte removable i byte p zero = byte
removable_byte removable i byte p (suc left) =
    removable_byte removable i
      (if removable p
        then if (p + 1) / 8 == i then bit_or byte (2 ^ ((p + 1) % 8)) else byte
        else byte)
      (suc p) left

-- The first bytes of an array are those of `port_removable`, `n` of them from `i` on.
unfoldable pub removable_bytes : (ℕ → Bool) → ℕ → ℕ → ℕ → List ℕ
removable_bytes removable ports i zero = []
removable_bytes removable ports i (suc n) =
    removable_byte removable i 0 0 ports ∷ removable_bytes removable ports (suc i) n

-- `xhci_usb2_hub_descriptor`: both arrays have four bytes of ones, and the first is overwritten
-- as far as ports exist.
unfoldable pub usb2_hub_descriptor : Hcd → List ℕ
usb2_hub_descriptor c =
    let temp = 1 + c.max_ports / 8 in
    let removable =
      removable_bytes c.usb2_port_removable c.max_ports 0 ((c.max_ports + 1 + 7) / 8) in
    (7 + 2 * temp) % 256 ∷ usb_dt_hub ∷ common_hub_descriptor c c.max_ports
    ++ overwrite 0 removable (replicate 4 0xff)
    ++ replicate 4 0xff

-- The loop of `xhci_usb3_hub_descriptor` over the ports from `p` on. `port_removable` is a u16.
unfoldable pub usb3_removable : Host → Hcd → ℕ → ℕ → ℕ → Hub → Hub × ℕ
usb3_removable o c port_removable p zero h = (h, port_removable)
usb3_removable o c port_removable p (suc left) h =
    let (h₁, portsc) = readl o (c.port_array p) h in
    usb3_removable o c
      (if has port_dev_remove portsc
        then bit_or port_removable (2 ^ (p + 1)) % 65536
        else port_removable)
      (suc p) left h₁

-- `xhci_usb3_hub_descriptor`
unfoldable pub usb3_hub_descriptor : Host → Hcd → Hub → Hub × List ℕ
usb3_hub_descriptor o c h =
    let (h₁, port_removable) = usb3_removable o c 0 0 c.max_ports h in
    (
      h₁,
      usb_dt_ss_hub_size ∷ usb_dt_ss_hub ∷ common_hub_descriptor c c.max_ports
          ++ 0 ∷ 0 ∷ 0 ∷ le16 port_removable,
    )

-- `xhci_hub_descriptor`
unfoldable pub hub_descriptor : Host → Hcd → Hub → Hub × List ℕ
hub_descriptor o c h = if c.usb3 then usb3_hub_descriptor o c h else (h, usb2_hub_descriptor c)

-- `usb_bos_descriptor`, with the latencies that the controller has and its LTM support. The
-- U2 latency is a 16-bit word at byte 13.
unfoldable pub bos_descriptor : Hcd → List ℕ
bos_descriptor c =
    let u1 = if c.lpm_support then c.hcs_params3 % 256 else 0 in
    let u2 = if c.lpm_support then (c.hcs_params3 / 65536) % 65536 else 0 in
    let ltm = if has (2 ^ 6) c.hcc_params then 0x2 else 0 in
    5 ∷ usb_dt_bos ∷ 0x0f ∷ 0 ∷ 1 ∷ 10 ∷ 0x10 ∷ 3 ∷ ltm ∷ 0x08 ∷ 0 ∷ 3 ∷ u1 ∷ le16 u2
