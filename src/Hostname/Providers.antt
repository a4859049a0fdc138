-- ===== src/Hostname/Providers.antt =====
-- Hints at the provider of a zone's DNS (src/switchboard-core/src/customer-hostname.ts).
use proof_cli_baran.Prelude.{
  Bool, true, false, ◌&&◌, ◌||◌, Option, none, some, List, [], ◌∷◌, map, ltb, ◌==◌, if◌then◌else◌,
  length, any, find, sort,
}
use proof_cli_baran.Prelude.Text.{Text, codes, trim, to_lower_case, split, join, includes}
use Prim.Native.String.{String}
use proof_cli_baran.Dns.Names.{
  Named, named, failing, DnsError, drop_last_dot, normalize_dns_hostname,
}

pub record DnsProviderHintProvider : Type 0 where
  pub name : String
  pub login_url : String
  pub docs_url : Option String

pub record ProviderMatch : Type 0 where
  pub provider : DnsProviderHintProvider
  pub matches : List Text

unfoldable pub dns_provider_hints : List ProviderMatch
dns_provider_hints =
    record {
      provider = record {
        name = "Cloudflare";
        login_url = "https://dash.cloudflare.com/";
        docs_url =
            some
              "https://developers.cloudflare.com/dns/manage-dns-records/how-to/create-dns-records/";
      };
      matches = codes "cloudflare.com" ∷ [];
    }
    ∷ record {
      provider = record {
        name = "AWS Route 53";
        login_url = "https://console.aws.amazon.com/route53/v2/hostedzones";
        docs_url =
            some
              "https://docs.aws.amazon.com/Route53/latest/DeveloperGuide/resource-record-sets-creating.html";
      };
      matches = codes "awsdns-" ∷ codes "awsdns." ∷ [];
    }
    ∷ record {
      provider = record {
        name = "GoDaddy";
        login_url = "https://dcc.godaddy.com/control/dns";
        docs_url = some "https://www.godaddy.com/help/add-a-cname-record-19236";
      };
      matches = codes "domaincontrol.com" ∷ [];
    }
    ∷ record {
      provider = record {
        name = "Namecheap";
        login_url = "https://ap.www.namecheap.com/domains/list/";
        docs_url =
            some
              "https://www.namecheap.com/support/knowledgebase/article.aspx/9646/10/how-can-i-set-up-a-cname-record-for-my-domain/";
      };
      matches = codes "registrar-servers.com" ∷ codes "namecheap.com" ∷ [];
    }
    ∷ record {
      provider = record {
        name = "Google Cloud DNS";
        login_url = "https://console.cloud.google.com/net-services/dns/zones";
        docs_url = some "https://cloud.google.com/dns/docs/records";
      };
      matches = codes "googledomains.com" ∷ codes "cloud-dns" ∷ codes "google.com" ∷ [];
    }
    ∷ record {
      provider = record {
        name = "DigitalOcean";
        login_url = "https://cloud.digitalocean.com/networking/domains";
        docs_url =
            some "https://docs.digitalocean.com/products/networking/dns/how-to/manage-records/";
      };
      matches = codes "digitalocean.com" ∷ [];
    }
    ∷ record {
      provider = record {
        name = "DNSimple";
        login_url = "https://dnsimple.com/domains";
        docs_url = some "https://support.dnsimple.com/articles/cname-record/";
      };
      matches = codes "dnsimple.com" ∷ [];
    }
    ∷ record {
      provider = record {
        name = "Netlify DNS";
        login_url = "https://app.netlify.com/teams/current/dns";
        docs_url = some "https://docs.netlify.com/domains-https/netlify-dns/dns-records/";
      };
      matches = codes "netlifydns.com" ∷ [];
    }
    ∷ record {
      provider = record {
        name = "Vercel DNS";
        login_url = "https://vercel.com/dashboard/domains";
        docs_url = some "https://vercel.com/docs/domains/managing-dns-records";
      };
      matches = codes "vercel-dns.com" ∷ [];
    }
    ∷ record {
      provider = record {
        name = "Azure DNS";
        login_url =
            "https://portal.azure.com/#view/HubsExtension/BrowseResource/resourceType/Microsoft.Network%2Fdnszones";
        docs_url = some "https://learn.microsoft.com/azure/dns/dns-operations-recordsets-portal";
      };
      matches = codes "azure-dns.com" ∷ [];
    }
    ∷ record {
      provider = record {
        name = "NS1";
        login_url = "https://my.nsone.net/";
        docs_url = some "https://help.ns1.com/hc/en-us/articles/360026590633-CNAME-records";
      };
      matches = codes "nsone.net" ∷ [];
    }
    ∷ record {
      provider = record {
        name = "Linode";
        login_url = "https://cloud.linode.com/domains";
        docs_url =
            some
              "https://www.linode.com/docs/products/networking/dns-manager/guides/manage-dns-records/";
      };
      matches = codes "linode.com" ∷ [];
    }
    ∷ record {
      provider = record {
        name = "Hetzner DNS";
        login_url = "https://dns.hetzner.com/";
        docs_url = some "https://docs.hetzner.com/dns-console/dns/general/records/";
      };
      matches = codes "hetzner.com" ∷ [];
    }
    ∷ record {
      provider = record {
        name = "Porkbun";
        login_url = "https://porkbun.com/account/domainsSpeedy";
        docs_url = some "https://kb.porkbun.com/article/91-how-to-edit-dns-records";
      };
      matches = codes "porkbun.com" ∷ [];
    }
    ∷ record {
      provider = record {
        name = "Hover";
        login_url = "https://www.hover.com/control_panel/domains";
        docs_url =
            some "https://help.hover.com/hc/en-us/articles/217281647-How-to-add-a-CNAME-record";
      };
      matches = codes "hover.com" ∷ [];
    }
    ∷ record {
      provider = record {
        name = "Wix";
        login_url = "https://manage.wix.com/account/domains";
        docs_url =
            some
              "https://support.wix.com/en/article/adding-or-updating-cname-records-in-your-wix-account";
      };
      matches = codes "wixdns.net" ∷ [];
    }
    ∷ record {
      provider = record {
        name = "Squarespace";
        login_url = "https://account.squarespace.com/domains";
        docs_url = some "https://support.squarespace.com/hc/en-us/articles/360002101888";
      };
      matches = codes "squarespacedns.com" ∷ [];
    }
    ∷ []

unfoldable pub normalize_name_server : Text → Text
normalize_name_server value = to_lower_case (drop_last_dot (trim value))

-- Some name server contains some of the provider's words.
unfoldable pub is_provider_of : List Text → ProviderMatch → Bool
is_provider_of servers hint =
    any (λ server. any (λ word. includes word server) hint.matches) servers

unfoldable pub dns_provider_hint_from_name_servers : List Text → Option DnsProviderHintProvider
unfolding normalize_name_server is_provider_of dns_provider_hints
dns_provider_hint_from_name_servers servers =
    elim (find (is_provider_of (map normalize_name_server servers)) dns_provider_hints) [
      | none ↦ none
      | some hint ↦ some hint.provider
    ]

-- Why no zone was found.
pub data HintError : Type 0 where
  invalid_name : DnsError → HintError
  no_ns_records_for : Text → HintError
  lookup_failed : DnsError → HintError
  no_ns_records_found : Text → HintError

pub record DnsProviderHint : Type 0 where
  pub zone : Option Text
  pub name_servers : List Text
  pub provider : Option DnsProviderHintProvider
  pub error : Option HintError

-- The order of `sort` on texts, by code units.
unfoldable pub text_before : Text → Text → Bool
text_before [] t = true
text_before (a ∷ s) [] = false
text_before (a ∷ s) (b ∷ t) = ltb a b || (a == b && text_before s t)

abbrev pub or_else {ℓ} : {A : Type ℓ} → Option A → A → A
or_else none a = a
or_else (some b) a = b

no_hint : HintError → DnsProviderHint
no_hint e = record { zone = none; name_servers = []; provider = none; error = some e }

zone_hint : Text → List Text → DnsProviderHint
zone_hint zone servers = record {
  zone = some zone;
  name_servers = servers;
  provider = dns_provider_hint_from_name_servers servers;
  error = none;
}

module _ (resolve_ns : Text → Named (List Text)) where
  -- One round for each suffix of at least two labels, from the longest.
  unfoldable pub lookup_zones : Text → Option HintError → List Text → DnsProviderHint
  unfolding no_hint zone_hint
  lookup_zones hostname last [] = no_hint (or_else last (no_ns_records_found hostname))
  lookup_zones hostname last (l ∷ ls) =
      let zone : Text = join b'.' (l ∷ ls) in
      let failed_with : DnsError → DnsProviderHint =
        λ e. lookup_zones hostname (some (lookup_failed e)) ls in
      let empty : DnsProviderHint = lookup_zones hostname (some (no_ns_records_for zone)) ls in
      if ltb (length ls) 1
      then no_hint (or_else last (no_ns_records_found hostname))
      else elim (resolve_ns zone) [
        | failing e ↦ failed_with e
        | named [] ↦ empty
        | named (s ∷ ss) ↦ zone_hint zone (sort text_before (map normalize_name_server (s ∷ ss)))
      ]

  unfoldable pub lookup_dns_provider_hint : Text → DnsProviderHint
  unfolding no_hint lookup_zones
  lookup_dns_provider_hint hostname = elim (normalize_dns_hostname hostname) [
    | failing e ↦ no_hint (invalid_name e)
    | named normalized ↦ lookup_zones normalized none (split b'.' normalized)
  ]
