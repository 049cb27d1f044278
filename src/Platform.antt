-- ===== src/Platform.antt =====
-- What the program takes from code that is not its own: the address and URL parsers of package
-- net, the IDNA profile of golang.org/x/net, and the Unicode functions of package strings.
use rkn_checker.Prelude.{Option}
use rkn_checker.Text.{Bytes}

pub record Platform : Type 0 where
  -- net.ParseIP, with `none` for nil
  pub parse_ip : Bytes → Option Bytes
  -- net.IP.To4, with `none` for nil
  pub ip_to4 : Bytes → Option Bytes
  -- net.IP.String
  pub ip_string : Bytes → Bytes
  -- the Host of url.Parse, with `none` for an error
  pub url_host : Bytes → Option Bytes
  -- idna.Profile.ToASCII, with `none` for an error
  pub to_ascii : Bytes → Option Bytes
  -- strings.ToLower
  pub to_lower : Bytes → Bytes
  -- strings.TrimSpace
  pub trim_space : Bytes → Bytes
