-- ===== src/Lib.antt =====
-- The TypeScript programs of EasyTrade, a stock trading demo: the offer service
-- (src/offerservice/src), the load generator (src/loadgen/src) and the web frontend
-- (src/frontend/src). They talk to the other services over HTTP; the frontend also asks the offer
-- service for its version, and the load generator drives the frontend in a browser.
--
-- Base holds what the parts share: equality as an instance, lists measured by native numbers, maps
-- in insertion order (Base.Dict), results of code that throws (Base.Result) and texts as lists of
-- code points (Base.Text).
--
-- Offer, the offer service:
--   Env        env/envVar.ts and env/envManager.ts (EnvVar, EnvManager, checkEnvVars), with
--              Env.Urls for urls/urls.ts and Env.Defaults for the exported manager
--   Catalog    offers/types.ts, const.ts and providers.ts (the filters and the four providers),
--              with Catalog.Controller for offers/controller.ts (getOffers) and Catalog.Offered
--              for both together
--   Sample     utils.ts (sampleArray)
--   Plugin     plugins (the slowdown plugin, its runner, the flag client and provider)
--   Signup     signups/controller.ts (signUpNewUser)
--   Version    version/controller.ts (getVersion)
--   App        app.ts, routes and the set-up of the plugins: the layers of the application, over an
--              Express that walks them (App.Express)
--
-- Loadgen, the load generator. A visit is a script over a browser, which is any type of states with
-- a function for each method of the page actions; a script returns or throws, and either way gives
-- the list of its calls.
--   Browser    the scripts, with the predicates on their calls (Within, Ends, Returns,
--              Total)
--   Selectors  selectors.ts
--   User       user, const.ts and utils.ts (getRandomUser, arrayRandom)
--   Helpers    helpers/common.ts, login.ts, logout.ts, deposit.ts, withdraw.ts and creditCard.ts,
--              with Helpers.Instruments for helpers/instruments.ts
--   Calculators  the calculators of visits/depositAndLongBuy.ts and visits/longSell.ts
--   Visits     the `run` of the five visits of visits; Visits.Trading has them over a browser that
--              answers
--   Config     config (the configuration read from the environment)
--   Provider   provider (the visits that are made, the opening hours of the stock exchange)
--   Main       main.ts and provider/getProvider.ts: the tree of providers and the start, over the
--              classes of @demoability/loadgen-core (Main.ProviderLibrary)
--
-- Frontend, the web frontend:
--   Money      api/transaction/trades.ts, api/creditCard/deposit and withdraw, api/bizEvents.ts
--   CardOrder  api/creditCard/order, api/backend/creditCard.ts, layouts/CreditCardLayout.tsx;
--              CardOrder.Pages is pages/protected/creditCard inside the layout, CardOrder.Visit
--              holds the credit card visit of Loadgen.Visits against these pages
--   Transactions  api/transaction/transactions.ts, components/charts/TransactionsCharts.tsx and
--              components/TransactionsTable.tsx
--   Auth       contexts/AuthContext, contexts/QueryContext/user/loaders.ts and the two layouts
--   StatusDisplay  hooks/useStatusDisplay.ts and components/StatusDisplay.tsx
--   FeatureFlags   components/featureFlags, api/featureFlags and pages/FeatureFlags.tsx, with one
--              flag of the page in FeatureFlags.Item
--   Queries    contexts/QueryContext (the keys, and what is removed or invalidated)
--   Cache      contexts/QueryContext (queries, hooks and loaders); Cache.Session is the session with
--              the cache, its steps those of AuthContext, the user panel, the loaders and the hooks;
--              Session.Library is what the cache's package documents
--   Versions   api/version/versions.ts, with pages/Version.tsx and components/version in
--              Versions.Page
--   Services   api/login, api/signup, api/user, api/instrument and api/price, with
--              api/backend/users.ts, instruments.ts and prices.ts
--   Env        env/index.ts
--   Forms      the forms over a library that submits and resets them: Forms.Payment for
--              components/forms/DepositForm.tsx and WithdrawForm.tsx, Forms.Trade for
--              components/instrument/forms, with contexts/InstrumentContext, Forms.Account for
--              SignupForm.tsx, LoginForm.tsx, DefaultLoginForm.tsx and
--              components/creditCard/CreditCardForm.tsx, Forms.Views for their elements. Their
--              handlers are those of Money, CardOrder and Auth; Forms.Settled is what a form
--              promises, and Forms.Views.Scripts holds the scripts of Loadgen.Helpers against them
--   Shell      components/AppHeader, components/Navigation.tsx and contexts/NavigationContext and
--              contexts/ThemeContext
--   Instrument  pages/protected/Instrument.tsx and components/instrument/InstrumentTransactions.tsx
--   Tour       the pages that the calls of Loadgen.Visits walk through: links, tabs and forms
--   Tables     components/InstrumentsTable.tsx, TransactionsTable.tsx (the cells),
--              charts/TransactionsPieChart.tsx and creditCard/CreditCardStatusTimeline.tsx
--   Routes     router.tsx and pages/BaseNavigation.tsx: the table of routes and the pages in it
--   Formatter  contexts/FormatterContext/context.tsx: formatDate; Intl is left out
--   Prices     components/instrument/InstrumentCard.tsx and PriceDisplay.tsx, and the data of
--              components/charts/InstrumentPriceChart.tsx and InstrumentsChart.tsx; Prices.Window
--              has the candles that the first of them selects
--
-- An `async` function is a function to a result, or to its answer and the list of its effects in
-- their order. Libraries are parameters: the HTTP client (a reply or an error), `JSON.parse`,
-- `Number`, the `URL` class, XML builders and parsers, the OpenFeature client, the injected agents,
-- the browser, random draws, floating point numbers (Loadgen.Numbers, Frontend.Forms.Numbers),
-- the query cache (Frontend.Cache.QueryCache), the form libraries (Frontend.Forms.FormLibrary) and
-- the rendering (Frontend.Forms.Views.Rendering). A law that needs more of them takes it as a
-- hypothesis, and Examples holds concrete instances. All recursion is structural, so no fuel is used.
--
-- Not modelled: logging, the set-up of React, markup and styles, the drawing of the charts, the
-- palettes of the themes, the matching of routes, and the services in other languages.
pub mod Base
pub mod Offer
pub mod Loadgen
pub mod Frontend
pub mod Examples
